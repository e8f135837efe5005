-- ===== src/Admin/Ipc.antt =====
-- include/tcs/admin_ipc.h: packets and receipts as the words of messages.
use tcs.Prelude.{
  ℕ, zero, suc, ◌||◌, ◌!=◌, if◌then◌else◌, List, [], ◌∷◌, ◌++◌, length, get_or, drop, Option, none,
  some, word_bytes,
}
use tcs.Policy.Status
use tcs.Ipc.{Message, message, word}
use tcs.Admin.{load64}
use tcs.Admin.Receipt.{Receipt}
use tcs.Admin.Types.{Command}

-- TCS_ADMIN_SUBMIT
abbrev pub submit_label : ℕ
submit_label = 0x201

-- TCS_ADMIN_EXECUTE
abbrev pub execute_label : ℕ
execute_label = 0x202

-- TCS_ADMIN_RECEIPT
abbrev pub receipt_label : ℕ
receipt_label = 0x280

-- TCS_ADMIN_ADMISSION
abbrev pub admission_label : ℕ
admission_label = 0x281

-- TCS_ADMIN_PACKET_WORDS
abbrev pub packet_words : ℕ
packet_words = 24

-- TCS_ADMIN_RECEIPT_WORDS
abbrev pub receipt_words : ℕ
receipt_words = 13

-- `tcs_words_from_bytes`, with the number of words; its inner loop is that of `load64`.
unfoldable pub words_from_bytes : List ℕ → ℕ → List ℕ
words_from_bytes bytes zero = []
words_from_bytes bytes (suc n) = load64 bytes ∷ words_from_bytes (drop 8 bytes) n

-- `tcs_bytes_from_words`, with the number of words.
unfoldable pub bytes_from_words : List ℕ → ℕ → List ℕ
bytes_from_words words zero = []
bytes_from_words words (suc n) = word_bytes (get_or words 0 0) ++ bytes_from_words (drop 1 words) n

-- `tcs_execution_words`
abbrev pub execution_words : Command → List ℕ
execution_words c =
    let r = c.request in
    c.sequence ∷ c.expected_generation ∷ r.op ∷ r.subject ∷ r.object ∷ r.rights ∷ []

-- `tcs_execution_from_words`
abbrev pub execution_from_words : Message → Command
execution_from_words m = record {
  sequence = word m 0;
  expected_generation = word m 1;
  request = record {
    op = word m 2;
    subject = word m 3;
    object = word m 4;
    rights = word m 5;
    generation = 0;
  };
}

-- `tcs_admin_receipt_reply`
unfoldable pub receipt_reply : Receipt → Message
receipt_reply r = message receipt_label (
    execution_words r.command
    ++ r.decision ∷ r.audit_ok ∷ r.applied ∷ r.post.state ∷ r.post.generation ∷ r.post.object
      ∷ r.post.rights ∷ [])

-- `tcs_admin_receipt_decode`
unfoldable pub receipt_decode : Message → Option Receipt
receipt_decode m =
    if (m.label != receipt_label) || (length m.words != receipt_words)
    then none
    else some (record {
      command = execution_from_words m;
      decision = word m 6;
      audit_ok = word m 7;
      applied = word m 8;
      post = record {
        status = Status.ok;
        state = word m 9;
        generation = word m 10;
        object = word m 11;
        rights = word m 12;
      };
    })

-- `tcs_admin_admission_reply`, with the number of the status.
unfoldable pub admission_reply : ℕ → Message
admission_reply status = message admission_label (status ∷ [])
