-- ===== src/Terminal/Server/Rounds.antt =====
-- The loop of `service` of servers/terminal.c.
use tcs.Prelude.{ℕ, zero, suc, if_holds}
use tcs.Ipc.{Message}
use tcs.Terminal.Phrases.{Build}
use tcs.Terminal.Server.{Terminal, Peers, send_out, turn, rounds}

module _ {S C A : Type 0} (build : Build) (serial : S → Message → S × Message)
    (client : C → Message → C × Message) (admin : A → Message → A × Message) where
  -- What every round of `service` keeps, and a last flush, `service` keeps.
  pub rounds_keep :
      (P : Terminal × Peers S C A → Type 0)
      → ((t : Terminal) (w : Peers S C A)
          → P (t, w)
          → let (u, x, _) = send_out build serial client admin t w in P (u, x))
      → ((t : Terminal) (w : Peers S C A)
          → P (t, w)
          → let (u, x, _) = turn build serial client admin t w in P (u, x))
      → (k : ℕ) (t : Terminal) (w : Peers S C A) → P (t, w)
      → P (rounds build serial client admin k t w)
  unfolding rounds
  rounds_keep P out one zero t w p = if_holds t.out.failed P p (out t w p)
  rounds_keep P out one (suc k) t w p =
      let (next, v, on) = turn build serial client admin t w in
      let after = one t w p in
      if_holds t.out.failed P p (if_holds on P (rounds_keep P out one k next v after) after)
