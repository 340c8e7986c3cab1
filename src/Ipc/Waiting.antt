-- ===== src/Ipc/Waiting.antt =====
-- The chains of waiting senders stay finite when one process starts or stops to send.
use mathlib.Core.Path.{subst}
use minx.Prelude.{
  ℕ, zero, suc, ◌≡◌, ◌≢◌, refl, sym, ap, ◌∙◌, ◌⊎◌, inl, inr, true, false, arith, has_flag, ◌==◌,
  Bool-cases,
}
use minx.Const.{sending}
use minx.Kernel.{Pcb}
use minx.Ipc.State.{Ends, last, hop, Leads, direct, via}

-- Two entries wait alike.
abbrev pub SameWait : Pcb → Pcb → Type 0
SameWait c d = (c.p_flags ≡ d.p_flags) × (c.p_sendto ≡ d.p_sendto)

-- The table changes from `t` to `u`, and only `s` may wait differently.
module _ (t u : ℕ → Pcb) (s : ℕ) (same : (p : ℕ) → p ≢ s → SameWait (u p) (t p)) where
  flag_same :
      (p : ℕ) {b : minx.Prelude.Bool}
      → p ≢ s
      → has_flag (t p).p_flags sending ≡ b
      → has_flag (u p).p_flags sending ≡ b
  flag_same p ne h = ap (λ x. has_flag x sending) (same p ne).0 ∙ h

  -- A chain that does not come to `s` is as it was.
  pub Ends-avoid : {n p : ℕ} → p ≢ s → ¬ (Leads t s p) → Ends t n p → Ends u n p
  Ends-avoid {p} ne out (last f) = last (flag_same p ne f)
  Ends-avoid {n = suc n} {p} ne out (hop f e) = hop (flag_same p ne f) (
      subst (Ends u n) (sym (same p ne).1)
        (Ends-avoid (λ to. out (direct f to)) (λ l. out (via f l)) e))

  pub Ends-change : {n p : ℕ} → (m : ℕ) × Ends u m s → Ends t n p → (m : ℕ) × Ends u m p
  Ends-change {p} at (last f) = elim (Bool-cases (p == s)) [
    | inl eq ↦ subst (λ x. (m : ℕ) × Ends u m x) (sym (ground arith)) at
    | inr ne ↦ (0, last (flag_same p (ground arith) f))
  ]
  Ends-change {p} at (hop f e) = elim (Bool-cases (p == s)) [
    | inl eq ↦ subst (λ x. (m : ℕ) × Ends u m x) (sym (ground arith)) at
    | inr ne ↦
        let apart : p ≢ s = ground arith in
        let (m, e') = Ends-change at e in
        (suc m, hop (flag_same p apart f) (subst (Ends u m) (sym (same p apart).1) e'))
  ]

-- Nothing changes if every process waits as before.
pub Ends-same :
    (t u : ℕ → Pcb) {n p : ℕ} → ((x : ℕ) → SameWait (u x) (t x)) → Ends t n p → Ends u n p
Ends-same t u {p = p} same (last f) = last (ap (λ x. has_flag x sending) (same p).0 ∙ f)
Ends-same t u {n = suc n} {p = p} same (hop f e) =
    hop (ap (λ x. has_flag x sending) (same p).0 ∙ f)
      (subst (Ends u n) (sym (same p).1) (Ends-same t u same e))
