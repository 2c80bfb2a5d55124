-- ===== src/Saga/Ties/Tables.antt =====
-- A table of a service: what a look-up by key shows of a row, when rows are added or a status changes.
use hotdrop_orchestration.Base.{
  Key, ◌≡◌, refl, ◌∙◌, ap, Bool, true, none, some, List, [], ◌∷◌, ◌++◌, arith, ◌==◌, ==_refl, first,
  modify_first, All, All-append, Bool-cases, inl, inr, first-append, first-append_left, found_here,
}

module _ {A B : Type 0} (key : A → Key) (view : A → B) where
  -- The row that is found under a key, as `view` shows it.
  abbrev pub Found : Key → B → List A → Type 0
  Found k b rows = (r : A) × (first (λ x. key x == k) rows ≡ some r) × (view r ≡ b)

  pub append-Found :
      (k : Key) (b : B) (rows more : List A) → Found k b rows → Found k b (rows ++ more)
  append-Found k b rows more h = (h.0, first-append_left (λ x. key x == k) rows more h.0 h.1, h.2)

  module _ (q : A → Bool) (f : A → A) (same_key : (x : A) → key (f x) ≡ key x)
      (same_view : (x : A) → view (f x) ≡ view x) where
    head_modified :
        (k : Key) (x r : A) (rows : List A)
        → (key x == k) ≡ true
        → first (λ y. key y == k) (x ∷ rows) ≡ some r
        → view (f x) ≡ view r
    head_modified k x r rows hers e =
        same_view x ∙ ap view (found_here (λ y. key y == k) x r rows hers e)

    found_modified :
        (k : Key) (rows : List A) (r : A)
        → first (λ x. key x == k) rows ≡ some r
        → Found k (view r) (modify_first q f rows)
    found_modified k [] r e = cc
    found_modified k (x ∷ rows) r e = elim (Bool-cases (q x)) [
      | inl hit ↦ elim (Bool-cases (key x == k)) [
        | inl hers ↦ rw (hit, same_key x, hers) (f x, refl, head_modified k x r rows hers e)
        | inr later ↦ rw (hit, same_key x, later) (r, ground arith, refl)
      ]
      | inr miss ↦ elim (Bool-cases (key x == k)) [
        | inl hers ↦
            rw (miss, hers) (x, refl, ap view (found_here (λ y. key y == k) x r rows hers e))
        | inr later ↦ rw (miss, later) (found_modified k rows r (ground arith))
      ]
    ]

    pub modify_first-Found :
        (k : Key) (b : B) (rows : List A) → Found k b rows → Found k b (modify_first q f rows)
    modify_first-Found k b rows h = let n = found_modified k rows h.0 h.1 in (n.0, n.1, n.2 ∙ h.2)

module _ {A : Type 0} where
  pub All-map : {P Q : A → Type 0} (rows : List A) → ((r : A) → P r → Q r) → All P rows → All Q rows
  All-map [] f h = tt
  All-map (r ∷ rows) f h = (f r h.0, All-map rows f h.1)

  pub modify_first-All :
      {P : A → Type 0} (q : A → Bool) (f : A → A) (rows : List A)
      → ((r : A) → q r ≡ true → P r → P (f r))
      → All P rows
      → All P (modify_first q f rows)
  modify_first-All q f [] kept h = tt
  modify_first-All q f (r ∷ rows) kept h = elim (Bool-cases (q r)) [
    | inl hit ↦ rw hit (kept r hit h.0, h.1)
    | inr miss ↦ rw miss (h.0, modify_first-All q f rows kept h.1)
  ]

  pub first-All :
      (P : A → Type 0) (q : A → Bool) (rows : List A) (r : A)
      → first q rows ≡ some r
      → All P rows
      → P r
  first-All P q [] r e h = cc
  first-All P q (x ∷ rows) r e h = elim (Bool-cases (q x)) [
    | inl hit ↦ rw (← found_here q x r rows hit e) h.0
    | inr miss ↦ first-All P q rows r (ground arith) h.1
  ]

module _ {A : Type 0} (key owner : A → Key) where
  -- Every row is the one that is found under its key, and what is due of it holds.
  abbrev pub IsTable : (A → Type 0) → List A → Type 0
  IsTable Due rows = All (λ r. Found key owner (key r) (owner r) rows × Due r) rows

  pub IsTable-due :
      {Due Later : A → Type 0} (rows : List A)
      → ((r : A) → Due r → Later r)
      → IsTable Due rows
      → IsTable Later rows
  IsTable-due rows f h = All-map rows (λ r x. (x.0, f r x.1)) h

  pub append-IsTable :
      (Due : A → Type 0) (rows : List A) (r : A)
      → first (λ x. key x == key r) rows ≡ none
      → Due r
      → IsTable Due rows
      → IsTable Due (rows ++ r ∷ [])
  append-IsTable Due rows r fresh due h =
      All-append (λ x. Found key owner (key x) (owner x) (rows ++ r ∷ []) × Due x) rows (r ∷ [])
        (All-map rows (λ x y. (append-Found key owner (key x) (owner x) rows (r ∷ []) y.0, y.1)) h)
        (((r, first-append (λ x. key x == key r) rows r fresh (==_refl (key r)), refl), due), tt)

  pub modify_first-IsTable :
      (Due : A → Type 0) (q : A → Bool) (f : A → A) (rows : List A)
      → ((x : A) → key (f x) ≡ key x)
      → ((x : A) → owner (f x) ≡ owner x)
      → ((x : A) → Due x → Due (f x))
      → IsTable Due rows
      → IsTable Due (modify_first q f rows)
  modify_first-IsTable Due q f rows same_key same_owner same_due h =
      modify_first-All {P = λ x. Found key owner (key x) (owner x) (modify_first q f rows) × Due x}
        q f rows (λ x hit y. rw (same_key x, same_owner x) (y.0, same_due x y.1))
        (All-map rows
          (λ x y.
            (modify_first-Found key owner q f same_key same_owner (key x) (owner x) rows y.0, y.1))
          h)
