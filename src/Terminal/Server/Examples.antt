-- ===== src/Terminal/Server/Examples.antt =====
-- The terminal server at concrete inputs.
use tcs.Prelude.{
  ℕ, ◌≡◌, refl, true, false, ◌==◌, if◌then◌else◌, List, [], ◌∷◌, ◌++◌, replicate, codes, arith,
}
use tcs.Policy
use tcs.Policy.Status
use tcs.Policy.Types.{restricted, active, the_object, read_right}
use tcs.Servers.System.{System, policy_step, client_step, storage_step}
use tcs.Servers.Audit
use tcs.Servers.Client
use tcs.Servers.PolicyServer
use tcs.Servers.Storage
use tcs.Ipc.{Message, reply, response, policy_call}
use tcs.Serial
use tcs.Serial.Server.{read_byte, write, send, are_bytes}
use tcs.Serial.{Rx}
use tcs.Terminal.{line_feed, feed_byte, line_append, terminal_input, reset_line}
use tcs.Terminal.Parser.{
  decimal, decimal_from, command_parse, parse_span, any_control, drop_spaces, skip_spaces,
  parse_words, from_space, word, until_space, read_argument, digits_from,
}
use tcs.Terminal.Output.{append, flush, words_of}
use tcs.Terminal.Types.{nothing}
use tcs.Terminal.Server
use tcs.Terminal.Phrases.{Build, append_all, read_texts}
use tcs.Terminal.Server.{
  Terminal, Peers, blank_line, dispatch, rounds, turn, proceed, receive_input, accept_input,
  take_byte, finish_line, execute, obey, begins,
}
use tcs.Terminal.Server.Texts.{IsNamed, literal}
use tcs.Terminal.Server.Steady.{IsFilled}
use tcs.Terminal.Server.Driver.{IsQueue}
use tcs.Terminal.Server.Uptime.{interrupt, wake, run, event_step, boot, boot-unfailed}
use tcs.Terminal.Server.Reach.{ask_client, boot-policy}

abbrev plain : Build
plain = record { signed = false; profile_name = codes "proof"; launch_name = codes "manual" }

-- A build that takes packets.
abbrev packets : Build
packets = record { signed = true; profile_name = codes "proof"; launch_name = codes "manual" }

plain-IsNamed : IsNamed plain
plain-IsNamed = record {
  profile_in = literal 64 (codes "proof") refl;
  launch_in = literal 64 (codes "manual") refl;
}

-- The state before `init`.
abbrev zeroed : Terminal
zeroed = record {
  line = blank_line;
  signed_input = record {
    packet = replicate 192 0;
    digits = 0;
    rejected = false;
    previous_cr = false;
    completed = false;
  };
  packet_mode = false;
  pending_event = nothing;
  out = record { output = replicate 256 0; output_length = 0; output_sent = 0; failed = false };
}

-- Three bytes wait in the queue.
abbrev typed : Rx
typed = record { bytes = b'h' ∷ b'i' ∷ 13 ∷ replicate 253 0; head = 0; count = 3; lost = false }

-- A device that keeps what is written to its data register and has nothing to read.
abbrev load : List ℕ → ℕ → List ℕ × ℕ
load d at = (d, 16)

abbrev store : List ℕ → ℕ → ℕ → List ℕ
store d at v = if at == 0 then d ++ v ∷ [] else d

abbrev ignore : List ℕ → ℕ → List ℕ
ignore d ch = d

-- A server that refuses everything.
abbrev refuse : ℕ → Message → ℕ × Message
refuse n m = (n, reply (Policy.result Status.denied 0))

abbrev start : Peers (List ℕ × Rx) ℕ ℕ
start = record { serial = ([], typed); client = 0; admin = 0 }

zeroed-IsFilled : IsFilled 0 zeroed.out
zeroed-IsFilled = record {
  steady = record {
    valid = record { storage = refl; length_in = omega arith; sent_in = omega arith };
    bytes = (literal 256 (replicate 256 0) refl).bytes;
    unfailed = refl;
    emptied = λ _. refl;
  };
  unsent = refl;
  filled = omega arith;
}

typed-IsQueue : IsQueue typed
typed-IsQueue = record {
  valid = record { storage = refl; head_in = omega arith; count_in = omega arith };
  bytes = (literal 256 typed.bytes refl).bytes;
}

boot-unfailed_example :
    (boot load store ignore ignore plain refuse refuse zeroed start
      (wake 0 ∷ interrupt 0 ∷ [])).0.out.failed
    ≡ false
boot-unfailed_example =
    boot-unfailed load store ignore ignore plain refuse refuse zeroed start
      (wake 0 ∷ interrupt 0 ∷ []) plain-IsNamed zeroed-IsFilled typed-IsQueue

-- The servers of the library, where session 3 of the client is open.
abbrev reading : System
reading = record {
  policy = record {
    live = record {
      subjects =
          Policy.update (λ i. record { generation = 0; object = 0; rights = 0; state = restricted })
            1 (record { generation = 3; object = the_object; rights = read_right; state = active });
    };
    ready = true;
  };
  audit = record { records = replicate 64 []; count = 0 };
}

-- `read 3` has been typed.
abbrev asked : Rx
asked = record { bytes = codes "read 3\r" ++ replicate 249 0; head = 0; count = 7; lost = false }

abbrev wired : Peers (List ℕ × Rx) System ℕ
wired = record { serial = ([], asked); client = reading; admin = 0 }

-- What the device is sent.
printed :
    (boot load store ignore ignore plain ask_client refuse zeroed wired
      (wake 0 ∷ wake 0 ∷ [])).1.serial.0
    ≡ codes
        "TCS TERMINAL READY (proof, read-only)\r\ntcs> read 3\r\nREAD OK value=288992676184\r\ntcs> "
unfolding boot run event_step Server.init Server.notified rounds turn proceed receive_input
    accept_input take_byte dispatch finish_line execute obey append_all append flush words_of
    read_texts decimal decimal_from command_parse parse_span any_control drop_spaces skip_spaces
    parse_words from_space word until_space read_argument digits_from begins Serial.Server.protected
    read_byte write send are_bytes Serial.take line_feed feed_byte line_append terminal_input
    reset_line reply response policy_step client_step storage_step PolicyServer.protected
    Storage.protected Client.protected Audit.protected Audit.append policy_call Policy.apply
    Policy.check Policy.commit PolicyServer.decide
printed = refl

boot-policy_example :
    let (_, x) =
      boot load store ignore ignore plain ask_client refuse zeroed wired (wake 0 ∷ wake 0 ∷ []) in
    (x.client.policy ≡ wired.client.policy) × (x.admin ≡ wired.admin)
boot-policy_example =
    boot-policy load store ignore ignore plain refuse zeroed wired (wake 0 ∷ wake 0 ∷ []) refl refl
