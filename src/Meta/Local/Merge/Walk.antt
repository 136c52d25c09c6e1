-- ===== src/Meta/Local/Merge/Walk.antt =====
-- src/meta/meta_local_mem.cpp: the queue of clear_unsync_dentry, on the tree `h₀` that it walks from
-- `root`. `seen` are the dentries that were queued so far.
use catfs.Common.{
  ℕ, zero, suc, ◌+◌, ◌≤◌, ◌<◌, ◌≡◌, ◌≢◌, refl, Bool, true, false, none, some, List, [], ◌∷◌, ◌++◌,
  Text, arith, text_key, lookup, Once, Bool-cases, inl, inr, ◌==◌, if◌then◌else◌,
}
use mathlib.Core.Option.{Option}
use catfs.Meta.Heap.{Ptr, Dentry, Heap}
use catfs.Meta.Local.Invariant.{IsSound}

abbrev pub mem : Ptr → List Ptr → Bool
mem e [] = false
mem e (x ∷ xs) = if x == e then true else mem e xs

abbrev pub Distinct : List Ptr → Type 0
Distinct [] = Unit {0}
Distinct (x ∷ xs) = (mem x xs ≡ false) × Distinct xs

abbrev pub mark : (Ptr → Bool) → Ptr → Ptr → Bool
mark seen c e = if c == e then true else seen e

-- How many addresses below `n` were not queued yet.
pub unseen : ℕ → (Ptr → Bool) → ℕ
unseen zero seen = 0
unseen (suc n) seen = (if seen n then 0 else 1) + unseen n seen

pub unseen-le : (n : ℕ) (seen : Ptr → Bool) → unseen n seen ≤ n
unfolding unseen
unseen-le zero seen = omega arith
unseen-le (suc n) seen = ground (arith, unseen-le n seen)

unseen-mark_above :
    (n : ℕ) (seen : Ptr → Bool) (c : Ptr) → n ≤ c → unseen n (mark seen c) ≡ unseen n seen
unfolding unseen
unseen-mark_above zero seen c le = refl
unseen-mark_above (suc n) seen c le = ground (arith, unseen-mark_above n seen c)

pub unseen-mark :
    (n : ℕ) (seen : Ptr → Bool) (c : Ptr)
    → c < n
    → seen c ≡ false
    → unseen n (mark seen c) + 1 ≡ unseen n seen
unfolding unseen
unseen-mark zero seen c lt new = absurd (omega arith)
unseen-mark (suc n) seen c lt new = elim (Bool-cases (c == n)) [
  | inl last ↦ ground (arith, unseen-mark_above n seen c)
  | inr other ↦ ground (arith, unseen-mark n seen c)
]

mem-snoc : (e c : Ptr) (q : List Ptr) → mem e (q ++ c ∷ []) ≡ (if mem e q then true else c == e)
mem-snoc e c [] = ground arith
mem-snoc e c (x ∷ q) = ground (arith, mem-snoc e c q)

Distinct-snoc : (c : Ptr) (q : List Ptr) → mem c q ≡ false → Distinct q → Distinct (q ++ c ∷ [])
Distinct-snoc c [] new h = (refl, tt)
Distinct-snoc c (x ∷ q) new (out, h) =
    (ground (arith, mem-snoc x c q), Distinct-snoc c q (ground arith) h)

module _ (h₀ : Heap) (root : Ptr) where
  -- A dentry other than the root is queued when its parent has left the queue.
  pub record IsWalk (seen : Ptr → Bool) (q : List Ptr) : Type 0 where
    pub above : (c : Ptr) → seen c ≡ true → root ≤ c
    pub queued : (c : Ptr) → mem c q ≡ true → seen c ≡ true
    pub once : Distinct q
    pub visited :
        (c : Ptr) (cd : Dentry)
        → seen c ≡ true
        → c ≢ root
        → h₀.dentries c ≡ some cd
        → (seen cd.parent ≡ true) × (mem cd.parent q ≡ false)

  pub start-IsWalk : IsWalk (λ c. root == c) (root ∷ [])
  start-IsWalk = record {
    above = λ c e. ground arith;
    queued = λ c e. ground arith;
    once = (refl, tt);
    visited = λ c cd e ne at_c. absurd (ground arith);
  }

  -- The front of the queue is taken.
  pub pop-IsWalk :
      (seen : Ptr → Bool) (p : Ptr) (q : List Ptr) → IsWalk seen (p ∷ q) → IsWalk seen q
  pop-IsWalk seen p q w = record {
    above = w.above;
    queued = λ c e. ground (arith, w.queued c);
    once = w.once.1;
    visited = λ c cd e ne at_c. ground (arith, w.visited c cd e ne at_c);
  }

  -- A child of a dentry that was taken is queued.
  pub push-IsWalk :
      (seen : Ptr → Bool) (q : List Ptr) (p c : Ptr) (cd : Dentry)
      → IsWalk seen q
      → seen p ≡ true
      → mem p q ≡ false
      → h₀.dentries c ≡ some cd
      → cd.parent ≡ p
      → p < c
      → seen c ≡ false
      → IsWalk (mark seen c) (q ++ c ∷ []) × (mem p (q ++ c ∷ []) ≡ false)
  push-IsWalk seen q p c cd w at_p out at_c up lt new = (
    record {
      above = λ e k. ground (arith, w.above e, w.above p);
      queued = λ e k. ground (arith, mem-snoc e c q, w.queued e);
      once = Distinct-snoc c q (ground (arith, w.queued c)) w.once;
      visited = λ e ed k ne at_e. elim (Bool-cases (c == e)) [
        | inl same ↦ ground (arith, mem-snoc p c q, mem-snoc ed.parent c q)
        | inr other ↦ ground (arith, mem-snoc ed.parent c q, w.visited e ed)
      ];
    },
    ground (arith, mem-snoc p c q),
  )

  module _ (p : Ptr) where
    -- The children of `p` that the loop has before it were not queued yet.
    abbrev pub Pending : List (Text × Ptr) → (Ptr → Bool) → Type 0
    Pending [] seen = Unit {0}
    Pending ((k, c) ∷ m) seen =
        ((cd : Dentry)
          → h₀.dentries c ≡ some cd
          → (cd.name ≡ k) × (cd.parent ≡ p) × (seen c ≡ false))
        × (lookup k m ≡ none)
        × Pending m seen

    pub mark-Pending :
        (seen : Ptr → Bool) (m : List (Text × Ptr)) (k : Text) (c : Ptr) (cd : Dentry)
        → lookup k m ≡ none
        → h₀.dentries c ≡ some cd
        → cd.name ≡ k
        → Pending m seen
        → Pending m (mark seen c)
    unfolding lookup
    mark-Pending seen [] k c cd absent at_c named h = tt
    mark-Pending seen ((k', c') ∷ m) k c cd absent at_c named (this, once, h) = (
      λ cd' e. ground (arith, this cd'),
      once,
      mark-Pending seen m k c cd (ground arith) at_c named h,
    )

module _ {least : Ptr} {index : ℕ → Option Ptr} (h₀ : Heap) (sound : IsSound least index h₀)
    (root p : Ptr) (d₀ : Dentry) (q : List Ptr) (seen : Ptr → Bool) where
  -- The children of a dentry that is taken were not queued before.
  pub all-Pending :
      (cs : List (Text × Ptr))
      → h₀.dentries p ≡ some d₀
      → IsWalk h₀ root seen (p ∷ q)
      → ((k : Text) (c : Ptr) → lookup k cs ≡ some c → lookup k d₀.children ≡ some c)
      → Once cs
      → Pending h₀ root p cs seen
  unfolding lookup
  all-Pending [] at_p w among once = tt
  all-Pending ((k, c) ∷ rest) at_p w among (absent, once) = (
    λ cd e.
        let (name, parent) = sound.child_linked p c d₀ cd k at_p (among k c (ground arith)) e in
        (
          name,
          parent,
          elim (Bool-cases (seen c)) [
            | inl before ↦ absurd (
                ground
                  (arith, w.above p, w.queued p, w.visited c cd before, sound.parent_below c cd e))
            | inr new ↦ new
          ],
        ),
    absent,
    all-Pending rest at_p w (λ j x f. among j x (ground arith)) once,
  )
