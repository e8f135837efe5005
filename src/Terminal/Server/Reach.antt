-- ===== src/Terminal/Server/Reach.antt =====
-- What the read-only terminal of system/terminal.system can change.
use tcs.Prelude.{ℕ, ◌≡◌, refl, ◌∙◌, false, List, [], ◌∷◌, arith}
use tcs.Policy.Types.{the_object, read_right}
use tcs.Ipc.{Message, message, op_label, client_status, client_read}
use tcs.Serial.{Rx}
use tcs.Servers.PolicyServer.{PolicyServer}
use tcs.Servers.System.{System, client_step}
use tcs.Servers.System.Confinement.{client_confined}
use tcs.Terminal.Phrases.{Build}
use tcs.Terminal.Server.{Terminal, Peers, init}
use tcs.Terminal.Server.Driver.{driver_step}
use tcs.Terminal.Server.Requests.{IsKept, IsWithin, init-IsWithin, notified-IsWithin}
use tcs.Terminal.Server.Uptime.{Event, interrupt, wake, event_step, run, boot}

-- The channel 1 of the terminal is the channel 0 of the client.
abbrev pub ask_client : System → Message → System × Message
ask_client s m = client_step s 0 m

module _ {D A : Type 0} (load : D → ℕ → D × ℕ) (store : D → ℕ → ℕ → D) (notify : D → ℕ → D)
    (irq_ack : D → ℕ → D) (build : Build) (admin : A → Message → A × Message)
    (policy : PolicyServer) (before : A) where
  -- The live policy is `policy`, and the administrator has been left as it was.
  abbrev IsConfined : Terminal × Peers (D × Rx) System A → Type 0
  IsConfined =
      IsWithin build (driver_step load store notify irq_ack) ask_client admin
        (λ (s : System). s.policy ≡ policy) (λ (a : A). a ≡ before)

  kept :
      build.signed ≡ false
      → IsKept build
          (driver_step load store notify irq_ack)
          ask_client
          admin
          (λ (s : System). s.policy ≡ policy)
          (λ (a : A). a ≡ before)
  kept plain = record {
    status_kept = λ s e. client_confined s 0 (message (op_label client_status) []) ∙ e;
    read_kept = λ s g e.
        client_confined s 0 (message (op_label client_read) (the_object ∷ read_right ∷ g ∷ [])) ∙ e;
    submit_kept = λ a packet signed e. absurd (ground (arith, plain, signed));
  }

  event_step-IsConfined :
      (r : Terminal × Peers (D × Rx) System A) (e : Event)
      → build.signed ≡ false
      → IsConfined r
      → IsConfined (event_step load store notify irq_ack build ask_client admin r.0 r.1 e)
  unfolding event_step
  event_step-IsConfined r (interrupt ch) plain i = record {
    entered = i.entered;
    client_in = i.client_in;
    admin_in = i.admin_in;
  }
  event_step-IsConfined r (wake ch) plain i =
      notified-IsWithin build (driver_step load store notify irq_ack) ask_client admin
        (λ (s : System). s.policy ≡ policy) (λ (a : A). a ≡ before) r.0 r.1 ch (kept plain) i

  run-IsConfined :
      (r : Terminal × Peers (D × Rx) System A) (es : List Event)
      → build.signed ≡ false
      → IsConfined r
      → IsConfined (run load store notify irq_ack build ask_client admin r.0 r.1 es)
  unfolding run
  run-IsConfined r [] plain i = i
  run-IsConfined r (e ∷ es) plain i =
      run-IsConfined (event_step load store notify irq_ack build ask_client admin r.0 r.1 e) es
        plain (event_step-IsConfined r e plain i)

  boot-IsConfined :
      (t : Terminal) (w : Peers (D × Rx) System A) (es : List Event)
      → build.signed ≡ false
      → IsConfined (t, w)
      → IsConfined (boot load store notify irq_ack build ask_client admin t w es)
  unfolding boot
  boot-IsConfined t w es plain i =
      run-IsConfined (init build (driver_step load store notify irq_ack) ask_client admin t w) es
        plain
        (init-IsWithin build (driver_step load store notify irq_ack) ask_client admin
          (λ (s : System). s.policy ≡ policy) (λ (a : A). a ≡ before) t w (kept plain) i)

module _ {D A : Type 0} (load : D → ℕ → D × ℕ) (store : D → ℕ → ℕ → D) (notify : D → ℕ → D)
    (irq_ack : D → ℕ → D) (build : Build) (admin : A → Message → A × Message) where
  -- In a build without signed packets whose terminal is wired to the servers, `init` and any sequence
  -- of interrupts and notifications, whatever the device does and whatever is typed, leave the live
  -- policy as it was, and the administrator too.
  pub boot-policy :
      (t : Terminal) (w : Peers (D × Rx) System A) (es : List Event)
      → build.signed ≡ false
      → t.packet_mode ≡ false
      → let (_, x) = boot load store notify irq_ack build ask_client admin t w es in
        (x.client.policy ≡ w.client.policy) × (x.admin ≡ w.admin)
  boot-policy t w es plain outside =
      let after =
        boot-IsConfined load store notify irq_ack build admin w.client.policy w.admin t w es plain
          (record {
            entered = λ h. absurd (ground (arith, outside, h));
            client_in = refl;
            admin_in = refl;
          }) in
      (after.client_in, after.admin_in)
