-- ===== src/Terminal/Server/Uptime.antt =====
-- servers/terminal.c and servers/serial.c running together: interrupts of the device and notifications
-- of the terminal, in any order.
use tcs.Prelude.{ℕ, ◌≡◌, false, List, [], ◌∷◌}
use tcs.Ipc.{Message}
use tcs.Serial.{Rx}
use tcs.Serial.Server
use tcs.Terminal.Phrases.{Build}
use tcs.Terminal.Server.{Terminal, Peers, init, notified}
use tcs.Terminal.Server.Texts.{IsNamed}
use tcs.Terminal.Server.Steady.{IsFilled}
use tcs.Terminal.Server.Loop.{IsLive, init-IsLive, notified-IsLive}
use tcs.Terminal.Server.Driver.{IsQueue, driver_step, driver-IsDriver, notified-IsQueue}

-- A notification of the driver, or one of the terminal, on a channel.
pub data Event : Type 0 where
  interrupt wake : ℕ → Event

module _ {D C A : Type 0} (load : D → ℕ → D × ℕ) (store : D → ℕ → ℕ → D) (notify : D → ℕ → D)
    (irq_ack : D → ℕ → D) (build : Build) (client : C → Message → C × Message)
    (admin : A → Message → A × Message) where
  unfoldable pub event_step : Terminal → Peers (D × Rx) C A → Event → Terminal × Peers (D × Rx) C A
  event_step t w (interrupt ch) =
      let (d, rx) = Server.notified load store notify irq_ack w.serial.0 w.serial.1 ch in
      (t, record w { serial = (d, rx) })
  event_step t w (wake ch) =
      notified build (driver_step load store notify irq_ack) client admin t w ch

  unfoldable pub run : Terminal → Peers (D × Rx) C A → List Event → Terminal × Peers (D × Rx) C A
  run t w [] = (t, w)
  run t w (e ∷ es) = let (u, x) = event_step t w e in run u x es

  -- The first run of the terminal, and then events.
  unfoldable pub boot : Terminal → Peers (D × Rx) C A → List Event → Terminal × Peers (D × Rx) C A
  boot t w es =
      let (u, x) = init build (driver_step load store notify irq_ack) client admin t w in run u x es

  -- The terminal over the driver, whose queue is kept.
  abbrev IsUp : Terminal → Peers (D × Rx) C A → Type 0
  IsUp =
      IsLive build (driver_step load store notify irq_ack) client admin
        (λ (s : D × Rx). IsQueue s.1)

  event_step-IsUp :
      (t : Terminal) (w : Peers (D × Rx) C A) (e : Event)
      → IsNamed build
      → IsUp t w
      → let (u, x) = event_step t w e in IsUp u x
  unfolding event_step
  event_step-IsUp t w (interrupt ch) n l = record {
    steady = l.steady;
    driven = notified-IsQueue load store notify irq_ack w.serial.0 w.serial.1 ch l.driven;
  }
  event_step-IsUp t w (wake ch) n l =
      notified-IsLive build (driver_step load store notify irq_ack) client admin
        (λ (s : D × Rx). IsQueue s.1) t w ch n (driver-IsDriver load store notify irq_ack) l

  run-IsUp :
      (t : Terminal) (w : Peers (D × Rx) C A) (es : List Event)
      → IsNamed build
      → IsUp t w
      → let (u, x) = run t w es in IsUp u x
  unfolding run
  run-IsUp t w [] n l = l
  run-IsUp t w (e ∷ es) n l =
      let (u, x) = event_step t w e in run-IsUp u x es n (event_step-IsUp t w e n l)

  -- Where the names of the build are at most 64 bytes, the terminal starts with nothing to print and
  -- the queue of the driver lies in its array, then after `init` and any sequence of interrupts and
  -- notifications, whatever the device, the client and the administrator do and whatever is typed, the
  -- terminal has not failed: no text was too long for its output, and the driver was never at fault.
  pub boot-unfailed :
      (t : Terminal) (w : Peers (D × Rx) C A) (es : List Event)
      → IsNamed build
      → IsFilled 0 t.out
      → IsQueue w.serial.1
      → (boot t w es).0.out.failed ≡ false
  unfolding boot
  boot-unfailed t w es n i q =
      let step = driver_step load store notify irq_ack in
      let (u, x) = init build step client admin t w in
      let up =
        init-IsLive build step client admin (λ (s : D × Rx). IsQueue s.1) t w n
          (driver-IsDriver load store notify irq_ack) q i in
      (run-IsUp u x es n up).steady.unfailed
