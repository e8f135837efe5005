-- ===== src/Prelude/Parts.antt =====
-- Parts of a packet that are laid out one behind the other.
use Prim.Native.Nat.{ℕ, ◌≤◌}
use mathlib.Core.Path.{◌≡◌, sym, ap, ◌∙◌}
use mathlib.Core.List.{List, [], ◌∷◌, ◌++◌, append_assoc, append-nil}
use native.Mathlib.Omega.{arith}
use tcs.Prelude.Lists.{length, drop, drop-append, drop-append_le, length-append}

-- The bytes of `p` from `at` on begin with `part`.
pub record Holds (p : List ℕ) (at : ℕ) (part : List ℕ) : Type 0 where
  pub rest : List ℕ
  pub here : drop at p ≡ part ++ rest

pub Holds-end : (p part : List ℕ) (at : ℕ) → length p ≡ at → Holds (p ++ part) at part
Holds-end p part at h = record {
  rest = [];
  here = rw (← h) (drop-append p part ∙ sym (append-nil part));
}

pub Holds-append :
    {p part : List ℕ} {at : ℕ} (q : List ℕ)
    → at ≤ length p
    → Holds p at part
    → Holds (p ++ q) at part
Holds-append {p} {part} {at} q h w = record {
  rest = w.rest ++ q;
  here = drop-append_le at p q h ∙ ap (λ (t : List ℕ). t ++ q) w.here ∙ append_assoc part w.rest q;
}

-- Parts that are put behind `p`, one after the other.
abbrev pub layout : List ℕ → List (List ℕ) → List ℕ
layout p [] = p
layout p (part ∷ parts) = layout (p ++ part) parts

pub Holds-layout :
    {p part : List ℕ} {at : ℕ} (parts : List (List ℕ))
    → at ≤ length p
    → Holds p at part
    → Holds (layout p parts) at part
Holds-layout [] h w = w
Holds-layout {p} (q ∷ parts) h w =
    Holds-layout parts (omega (arith, length-append p q)) (Holds-append q h w)

-- The first of the parts stands right behind `p`.
pub layout-Holds :
    (p part : List ℕ) (parts : List (List ℕ)) (at : ℕ)
    → length p ≡ at
    → Holds (layout p (part ∷ parts)) at part
layout-Holds p part parts at h =
    Holds-layout parts (omega (arith, length-append p part)) (Holds-end p part at h)
