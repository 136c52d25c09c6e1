-- ===== src/Fs/Kept.antt =====
-- src/fs/fs.h: what the operations keep: the tree and its index sound, and the parts of the open
-- files' writers at their sizes.
pub mod Operations
use catfs.Common.{
  number_key, ℕ, ok, ap, ◌∙◌, subst, ◌≡◌, refl, Option, none, some, List, Text, Cmd, Run, zoom_back,
  lookup, insert, lookup-insert, Ends, ends_ok, Ends-map, inr, Ends-back, arith,
}
use mathlib.Core.Option.{some-injective}
use native.Mathlib.Decide.{ℕ_discrete}
use catfs.Writer.Ending.Kept.{IsMade}
use catfs.Writer
use catfs.Meta.Heap
use catfs.Meta.Local.Index.{indexed}
use catfs.Meta.Local.Invariant.{IsSound}
use catfs.Meta.Impl.{MetaImpl}
use catfs.Meta.Impl.Kept.{Tree, on_dentry-Tree}
use catfs.Fs.{CatFs, OpenFile, file_at}

-- The tree that is mounted is sound.
abbrev pub Mounted : {W : Type 0} → CatFs W → Type 0
Mounted s = Tree 0 s.meta

-- The writers of the open files are made, unless `G` holds.
abbrev pub Opened : Type 0 → List (ℕ × Option OpenFile) → Type 0
Opened G files = (hno : ℕ) (f : OpenFile) → lookup hno files ≡ some (some f) → IsMade G f.writer

abbrev pub Ready : Type 0 → {W : Type 0} → CatFs W → Type 0
Ready G s = Mounted s × Opened G s.open_files

any-Opened : (files : List (ℕ × Option OpenFile)) → Opened (Unit {0}) files
any-Opened files hno f e = ((λ p e. inr tt), (λ p e z. tt))

-- Nothing is asked of writers of which nothing is to be shown.
pub any-Ready : {W : Type 0} (s : CatFs W) → Mounted s → Ready (Unit {0}) s
any-Ready s h = (h, any-Opened s.open_files)

-- A file that is found was opened.
abbrev pub Found : Type 0 → Option OpenFile → Type 0
Found G o = (f : OpenFile) → o ≡ some f → IsMade G f.writer

pub insert-Opened :
    {G : Type 0} (hno : ℕ) (o : Option OpenFile) (files : List (ℕ × Option OpenFile))
    → Found G o
    → Opened G files
    → Opened G (insert hno o files)
insert-Opened hno o files new old i f e = elim (ℕ_discrete hno i) [
  | yes p ↦ new f (ground (arith, lookup-insert i hno o files))
  | no n ↦ old i f (ground (arith, lookup-insert i hno o files))
]

pub new_writer-IsMade : {G : Type 0} (path : Text) → IsMade G (Writer.new_writer path)
new_writer-IsMade path = ((λ p e. cc), (λ p e. cc))

-- A file that stands for itself.
pub the-Found : {G : Type 0} (f : OpenFile) → IsMade G f.writer → Found G (some f)
the-Found {G} f made g e = subst (λ f. IsMade G f.writer) (some-injective _ _ e) made

module _ {F G : Type 0} {W A : Type 0} (s : CatFs W) (opened : Opened G s.open_files) where
  pub on_meta-Ready :
      {r : Run (MetaImpl W) A}
      → Ends F (λ _. Tree 0) (Tree 0) r
      → Ends F (λ _. Ready G) (Ready G) (zoom_back (λ s. s.meta) (λ m s. record s { meta = m }) s r)
  on_meta-Ready h =
      Ends-back (λ s. s.meta) (λ m s. record s { meta = m }) s
        (Ends-map h (λ _ _ k. (k, opened)) (λ _ k. (k, opened)))

  -- A method of Dentry.
  pub on_dentry-Ready :
      {r : Run Heap.Heap A}
      → Ends F (λ _. IsSound 0 (indexed s.meta.local)) (IsSound 0 (indexed s.meta.local)) r
      → Ends F
          (λ _. Ready G)
          (Ready G)
          (zoom_back
            (λ s. s.meta)
            (λ m s. record s { meta = m })
            s
            (zoom_back
              (λ s. s.local)
              (λ t s. record s { local = t })
              s.meta
              (zoom_back (λ s. s.heap) (λ h s. record s { heap = h }) s.meta.local r)))
  on_dentry-Ready h = on_meta-Ready (on_dentry-Tree s.meta h)

module _ {F G : Type 0} {W : Type 0} (s : CatFs W) (h : Ready G s) where
  pub file_at-Ready : (hno : ℕ) → Ends F (λ o s. Ready G s × Found G o) (Ready G) (file_at hno s)
  unfolding file_at
  file_at-Ready hno =
      found_or (lookup hno s.open_files) (λ o e f here. h.1 hno f (e ∙ ap some here))
    where
      found_or :
          (o : Option (Option OpenFile))
          → ((o' : Option OpenFile) → o ≡ some o' → Found G o')
          → Ends F
              (λ o s. Ready G s × Found G o)
              (Ready G)
              (elim o [
                | some f ↦ ok f s
                | none ↦ ok none (record s { open_files = insert hno none s.open_files })
              ])
      found_or none k =
          ends_ok ((h.0, insert-Opened hno none s.open_files (λ f e. cc) h.1), (λ f e. cc))
      found_or (some o) k = ends_ok (h, k o refl)

module _ {F G : Type 0} {S A : Type 0} {P : A → S → Type 0} {Q : S → Type 0} where
  -- What goes on with a file that may be found.
  pub of-then :
      (o : Option OpenFile) (n : Cmd S A) (k : OpenFile → Cmd S A) (s : S)
      → Found G o
      → Ends F P Q (n s)
      → ((f : OpenFile) → IsMade G f.writer → Ends F P Q (k f s))
      → Ends F P Q ((elim o as (λ _. Cmd S A) [ none ↦ n | some f ↦ k f ]) s)
  of-then none n k s found h g = h
  of-then (some f) n k s found h g = g f (found f refl)
