-- ===== src/Ipc/Queue.antt =====
-- The linked sending queues: the loops over `next_sending` against operations on lists.
use minx.Prelude.{
  ℕ, zero, suc, ◌≤◌, ◌≡◌, ◌≢◌, sym, ap, ◌∙◌, inl, inr, true, false, List, [], ◌∷◌, ◌++◌, Option,
  none, some, arith, length, has, Distinct, remove, ok, has_flag, ◌==◌, Bool-cases, if◌then◌else◌,
}
use minx.Const.{sending}
use minx.Kernel.{Pcb, Kernel}
use minx.Ipc.Recv.{find_prev}
use minx.Ipc.Send.{find_last}
use minx.Ipc.State.{Linked}

-- The last entry of the queue `p ∷ xs`.
abbrev pub last_of : ℕ → List ℕ → ℕ
last_of p [] = p
last_of p (x ∷ xs) = last_of x xs

pub has-last_of : (p : ℕ) (xs : List ℕ) → has (last_of p xs) (p ∷ xs) ≡ true
has-last_of p [] = ground arith
has-last_of p (x ∷ xs) = ground (arith, has-last_of x xs)

-- A queue depends only on the `next_sending` of its entries.
pub Linked-frame :
    (t u : ℕ → Pcb) (ptr : Option ℕ) (xs : List ℕ)
    → Linked t ptr xs
    → ((x : ℕ) → has x xs ≡ true → (u x).next_sending ≡ (t x).next_sending)
    → Linked u ptr xs
Linked-frame t u ptr [] l same = l
Linked-frame t u ptr (x ∷ xs) l same = (
  l.0,
  rw (same x (ground arith))
      (Linked-frame t u (t x).next_sending xs l.1 (λ y h. same y (ground arith))),
)

pub find_last-last_of :
    (k : Kernel) (fuel p : ℕ) (xs : List ℕ)
    → Linked k.pcb_table (k.pcb_table p).next_sending xs
    → length xs ≤ fuel
    → find_last (suc fuel) p k ≡ ok (last_of p xs)
unfolding find_last
find_last-last_of k fuel p [] l le = rw (l, find_last)
find_last-last_of k zero p (x ∷ xs) l le = absurd (omega arith)
find_last-last_of k (suc fuel) p (x ∷ xs) l le =
    rw (l.0, find_last) (find_last-last_of k fuel x xs l.1 (omega arith))

last_of-ne : (p x : ℕ) (xs : List ℕ) → has p (x ∷ xs) ≡ false → p ≢ last_of x xs
last_of-ne p x xs out e = cc (has-last_of x xs, out, ap (λ y. has y (x ∷ xs)) e)

-- Writing `s` into the `next_sending` of the last entry appends it.
pub Linked-append :
    (t u : ℕ → Pcb) (s p : ℕ) (xs : List ℕ)
    → Linked t (t p).next_sending xs
    → Distinct (p ∷ xs)
    → (u s).next_sending ≡ none
    → (u (last_of p xs)).next_sending ≡ some s
    → ((x : ℕ) → has x (p ∷ xs) ≡ true → x ≢ last_of p xs → (u x).next_sending ≡ (t x).next_sending)
    → Linked u (u p).next_sending (xs ++ s ∷ [])
Linked-append t u s p [] l d end new same = (new, end)
Linked-append t u s p (x ∷ xs) l d end new same = (
  same p (ground arith) (last_of-ne p x xs d.0) ∙ l.0,
  Linked-append t u s x xs l.1 d.1 end new (λ y h ne. same y (ground arith) ne),
)

-- The entry before `s` in the queue `p ∷ xs`, where `s` is in `xs`.
abbrev pub before : ℕ → ℕ → List ℕ → ℕ
before s p [] = p
before s p (x ∷ xs) = if x == s then p else before s x xs

pub has-before : (s p : ℕ) (xs : List ℕ) → has (before s p xs) (p ∷ xs) ≡ true
has-before s p [] = ground arith
has-before s p (x ∷ xs) = ground (arith, has-before s x xs)

pub find_prev-before :
    (k : Kernel) (s fuel p : ℕ) (xs : List ℕ)
    → Linked k.pcb_table (k.pcb_table p).next_sending xs
    → has s xs ≡ true
    → ((x : ℕ) → has x xs ≡ true → (k.pcb_table x).pid ≡ x)
    → has_flag (k.pcb_table s).p_flags sending ≡ true
    → length xs ≤ fuel
    → find_prev (suc fuel) s (some p) (k.pcb_table p).next_sending k ≡ ok (some (before s p xs))
unfolding find_prev
find_prev-before k s fuel p [] l h pids f le = cc
find_prev-before k s zero p (x ∷ xs) l h pids f le = absurd (omega arith)
find_prev-before k s (suc fuel) p (x ∷ xs) l h pids f le = elim (Bool-cases (x == s)) [
  | inl here ↦ rw (l.0, f, pids x (ground arith), here)
  | inr there ↦
      rw (l.0, f, pids x (ground arith), there)
        (find_prev-before k s fuel x xs l.1 (ground arith) (λ y m. pids y (ground arith)) f
          (omega arith))
]

before-ne : (s p x : ℕ) (xs : List ℕ) → has p (x ∷ xs) ≡ false → p ≢ before s x xs
before-ne s p x xs out e = cc (has-before s x xs, out, ap (λ y. has y (x ∷ xs)) e)

-- Writing the `next_sending` of `s` into that of the entry before it removes it.
pub Linked-remove :
    (t u : ℕ → Pcb) (s p : ℕ) (xs : List ℕ)
    → Linked t (t p).next_sending xs
    → has s xs ≡ true
    → Distinct (p ∷ xs)
    → (u (before s p xs)).next_sending ≡ (t s).next_sending
    → ((x : ℕ)
        → has x (p ∷ xs) ≡ true
        → x ≢ before s p xs
        → x ≢ s
        → (u x).next_sending ≡ (t x).next_sending)
    → Linked u (u p).next_sending (remove s xs)
Linked-remove t u s p [] l h d new same = cc
Linked-remove t u s p (x ∷ xs) l h d new same = elim (Bool-cases (s == x)) [
  | inl here ↦
      let e : s ≡ x = ground arith in
      let first : before s p (x ∷ xs) ≡ p = rw e (ground arith) in
      let next : (u p).next_sending ≡ (t x).next_sending =
        ap (λ y. (u y).next_sending) (sym first) ∙ new ∙ ap (λ y. (t y).next_sending) e in
      rw (here, next)
        (Linked-frame t u (t x).next_sending xs l.1
          (λ y m. same y (ground arith) (ground (arith, first)) (ground (arith, e))))
  | inr there ↦
      let rest : before s p (x ∷ xs) ≡ before s x xs = ground arith in
      rw there (
        same p (ground arith) (ground (arith, before-ne s p x xs)) (ground arith) ∙ l.0,
        Linked-remove t u s x xs l.1 (ground arith) d.1
            (ap (λ y. (u y).next_sending) (sym rest) ∙ new)
            (λ y m ne ns. same y (ground arith) (λ e. ne (e ∙ rest)) ns),
      )
]

pub before-ne_self : (s p : ℕ) (xs : List ℕ) → p ≢ s → before s p xs ≢ s
before-ne_self s p [] ne = ne
before-ne_self s p (x ∷ xs) ne = ground (arith, before-ne_self s x xs)
