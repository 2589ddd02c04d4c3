-- ===== src/Vault/Retired.antt =====
-- src/vault.rs, `LiveSet::apply`: additions before removals, so what one delta both adds and removes is
-- not live after it.
use manifestus.Base.{
  ℕ, ◌≡◌, ◌≢◌, ◌⊎◌, ◌∙◌, inl, inr, refl, sym, ap, subst, Bool, true, false, ◌||◌, Option, none,
  some, List, [], ◌∷◌, ◌++◌, bytes_eq, bytes_eq_refl, Bool-cases, ◌==◌, ==_iff, if◌then◌else◌,
  arith,
}
use manifestus.Vault.Live.{
  Entry, LiveSet, lookup, remove, insert, contains, discard, is_exactly, add_all, remove_one,
  remove_all, apply, is_referenced,
}

lookup-remove : (k : ℕ) (es : List Entry) → lookup k (remove k es) ≡ none
unfolding lookup remove
lookup-remove k [] = refl
lookup-remove k (e ∷ es) = go (Bool-cases (e.0 == k)) (lookup-remove k es)
  where
    go :
        ((e.0 == k) ≡ true) ⊎ ((e.0 == k) ≡ false)
        → lookup k (remove k es) ≡ none
        → lookup k (if e.0 == k then remove k es else e ∷ remove k es) ≡ none
    go (inl h) r = rw h r
    go (inr h) r = rw (h, lookup, h) r

lookup-remove_other : (k j : ℕ) (es : List Entry) → j ≢ k → lookup k (remove j es) ≡ lookup k es
unfolding lookup remove
lookup-remove_other k j [] ne = refl
lookup-remove_other k j (e ∷ es) ne = go (Bool-cases (e.0 == j)) (lookup-remove_other k j es ne)
  where
    go :
        ((e.0 == j) ≡ true) ⊎ ((e.0 == j) ≡ false)
        → lookup k (remove j es) ≡ lookup k es
        → lookup k (if e.0 == j then remove j es else e ∷ remove j es)
          ≡ (if e.0 == k then some e.1 else lookup k es)
    go (inl h) r =
        let other : (e.0 == k) ≡ false = ground (arith, (==_iff e.0 j).0 h) in rw (h, other) r
    go (inr h) r = rw h (ap (λ (o : Option (List ℕ)). if e.0 == k then some e.1 else o) r)

contains-discard : (k : ℕ) (xs : List ℕ) → contains k (discard k xs) ≡ false
unfolding contains discard
contains-discard k [] = refl
contains-discard k (x ∷ xs) = go (Bool-cases (x == k)) (contains-discard k xs)
  where
    go :
        ((x == k) ≡ true) ⊎ ((x == k) ≡ false)
        → contains k (discard k xs) ≡ false
        → contains k (if x == k then discard k xs else x ∷ discard k xs) ≡ false
    go (inl h) r = rw h r
    go (inr h) r = rw (h, contains, h) r

contains-discard_other :
    (k j : ℕ) (xs : List ℕ) → contains k xs ≡ false → contains k (discard j xs) ≡ false
unfolding contains discard
contains-discard_other k j [] h = refl
contains-discard_other k j (x ∷ xs) h = go (x == k) refl h (x == j) (contains-discard_other k j xs)
  where
    go :
        (b : Bool)
        → (x == k) ≡ b
        → (b || contains k xs) ≡ false
        → (c : Bool) → (contains k xs ≡ false → contains k (discard j xs) ≡ false)
        → contains k (if c then discard j xs else x ∷ discard j xs) ≡ false
    go true e h c r = absurd (cc h)
    go false e h true r = r h
    go false e h false r = rw (contains, e) (r h)

-- What the map may know of a position that was added with one hash: that hash, or nothing.
abbrev pub OnlyWith : ℕ → List ℕ → List Entry → Type 0
OnlyWith lba hp es = (lookup lba es ≡ none) ⊎ (lookup lba es ≡ some hp)

-- The position is not known at all.
abbrev Gone : ℕ → LiveSet → Type 0
Gone lba l = (lookup lba l.hashed ≡ none) × (contains lba l.referenced ≡ false)

remove-OnlyWith :
    (lba : ℕ) (hp : List ℕ) (j : ℕ) (es : List Entry)
    → OnlyWith lba hp es
    → OnlyWith lba hp (remove j es)
remove-OnlyWith lba hp j es o = go (Bool-cases (j == lba)) o
  where
    go :
        ((j == lba) ≡ true) ⊎ ((j == lba) ≡ false)
        → OnlyWith lba hp es
        → OnlyWith lba hp (remove j es)
    go (inl e) o =
        inl (
          subst (λ (z : ℕ). lookup z (remove j es) ≡ none) ((==_iff j lba).0 e)
            (lookup-remove j es))
    go (inr e) (inl o) = inl (lookup-remove_other lba j es (apart e) ∙ o)
      where
        apart : (j == lba) ≡ false → j ≢ lba
        apart e h = absurd (cc (e, (==_iff j lba).1 h))
    go (inr e) (inr o) = inr (lookup-remove_other lba j es (apart e) ∙ o)
      where
        apart : (j == lba) ≡ false → j ≢ lba
        apart e h = absurd (cc (e, (==_iff j lba).1 h))

none-remove : (lba j : ℕ) (es : List Entry) → lookup lba es ≡ none → lookup lba (remove j es) ≡ none
none-remove lba j es h = go (remove-OnlyWith lba [] j es (inl h)) (Bool-cases (j == lba))
  where
    go :
        OnlyWith lba [] (remove j es)
        → ((j == lba) ≡ true) ⊎ ((j == lba) ≡ false)
        → lookup lba (remove j es) ≡ none
    go o (inl e) =
        subst (λ (z : ℕ). lookup z (remove j es) ≡ none) ((==_iff j lba).0 e) (lookup-remove j es)
    go o (inr e) = lookup-remove_other lba j es apart ∙ h
      where
        apart : j ≢ lba
        apart k = absurd (cc (e, (==_iff j lba).1 k))

if-holds : {X : Type 0} (P : X → Type 0) (b : Bool) (x y : X) → P x → P y → P (if b then x else y)
if-holds P true x y p q = p
if-holds P false x y p q = q

-- Every entry of the list for the position carries the hash.
abbrev pub AllWith : ℕ → List ℕ → List Entry → Type 0
AllWith lba hp [] = Unit {0}
AllWith lba hp (e ∷ es) = (e.0 ≡ lba → e.1 ≡ hp) × AllWith lba hp es

add_all-OnlyWith :
    (lba : ℕ) (hp : List ℕ) (es : List Entry) (l : LiveSet)
    → AllWith lba hp es
    → OnlyWith lba hp l.hashed
    → OnlyWith lba hp (add_all es l).hashed
unfolding add_all insert lookup
add_all-OnlyWith lba hp [] l a o = o
add_all-OnlyWith lba hp (e ∷ es) l a o =
    add_all-OnlyWith lba hp es
      (record { hashed = insert e l.hashed; referenced = discard e.0 l.referenced }) a.1
      (inserted (Bool-cases (e.0 == lba)) (remove-OnlyWith lba hp e.0 l.hashed o))
  where
    inserted :
        ((e.0 == lba) ≡ true) ⊎ ((e.0 == lba) ≡ false)
        → OnlyWith lba hp (remove e.0 l.hashed)
        → OnlyWith lba hp (insert e l.hashed)
    inserted (inl h) r =
        inr (rw (lookup, h) (ap (λ (x : List ℕ). some x) (a.0 ((==_iff e.0 lba).0 h))))
    inserted (inr h) (inl r) = inl (rw (lookup, h) r)
    inserted (inr h) (inr r) = inr (rw (lookup, h) r)

remove_one-Gone : (lba : ℕ) (e : Entry) (l : LiveSet) → Gone lba l → Gone lba (remove_one e l)
unfolding remove_one
remove_one-Gone lba e l (h, c) = (
  if-holds (λ (es : List Entry). lookup lba es ≡ none) (is_exactly (lookup e.0 l.hashed) e.1)
      (remove e.0 l.hashed) l.hashed (none-remove lba e.0 l.hashed h) h,
  contains-discard_other lba e.0 l.referenced c,
)

remove_one-OnlyWith :
    (lba : ℕ) (hp : List ℕ) (e : Entry) (l : LiveSet)
    → OnlyWith lba hp l.hashed
    → OnlyWith lba hp (remove_one e l).hashed
unfolding remove_one
remove_one-OnlyWith lba hp e l o =
    if-holds (OnlyWith lba hp) (is_exactly (lookup e.0 l.hashed) e.1) (remove e.0 l.hashed) l.hashed
      (remove-OnlyWith lba hp e.0 l.hashed o) o

remove_one-retires :
    (lba : ℕ) (hp : List ℕ) (l : LiveSet)
    → OnlyWith lba hp l.hashed
    → Gone lba (remove_one (lba, hp) l)
unfolding remove_one
remove_one-retires lba hp l o =
    (looked (lookup lba l.hashed) refl o, contains-discard lba l.referenced)
  where
    looked :
        (m : Option (List ℕ))
        → lookup lba l.hashed ≡ m
        → (m ≡ none) ⊎ (m ≡ some hp)
        → lookup lba (if is_exactly m hp then remove lba l.hashed else l.hashed) ≡ none
    looked none e o = e
    looked (some h) e (inl o) = absurd (cc o)
    looked (some h) e (inr o) =
        let same : bytes_eq h hp ≡ true =
          ap (λ (x : List ℕ). bytes_eq x hp) (some_value o) ∙ bytes_eq_refl hp in
        rw same (lookup-remove lba l.hashed)
      where
        some_value : some h ≡ some hp → h ≡ hp
        some_value k = cc k

remove_all-Gone :
    (lba : ℕ) (es : List Entry) (l : LiveSet) → Gone lba l → Gone lba (remove_all es l)
unfolding remove_all
remove_all-Gone lba [] l g = g
remove_all-Gone lba (e ∷ es) l g =
    remove_all-Gone lba es (remove_one e l) (remove_one-Gone lba e l g)

remove_all-retires :
    (lba : ℕ) (hp : List ℕ) (before after : List Entry) (l : LiveSet)
    → OnlyWith lba hp l.hashed
    → Gone lba (remove_all (before ++ (lba, hp) ∷ after) l)
unfolding remove_all
remove_all-retires lba hp [] after l o =
    remove_all-Gone lba after (remove_one (lba, hp) l) (remove_one-retires lba hp l o)
remove_all-retires lba hp (e ∷ before) after l o =
    remove_all-retires lba hp before after (remove_one e l) (remove_one-OnlyWith lba hp e l o)

add_all-append :
    (first later : List Entry) (l : LiveSet)
    → add_all (first ++ later) l ≡ add_all later (add_all first l)
unfolding add_all
add_all-append [] later l = refl
add_all-append (e ∷ first) later l = add_all-append first later _

insert-OnlyWith : (lba : ℕ) (hp : List ℕ) (es : List Entry) → OnlyWith lba hp (insert (lba, hp) es)
unfolding insert lookup
insert-OnlyWith lba hp es = inr (rw ((==_iff lba lba).1 refl) refl)

-- For any live set: a block that a delta adds and removes with one hash, where no later addition of
-- the delta gives its position another hash, is not referenced after the delta.
pub apply-retires :
    (lba : ℕ) (hp : List ℕ) (first later before after : List Entry) (l : LiveSet)
    → AllWith lba hp later
    → is_referenced
        (apply
          (record { added = first ++ (lba, hp) ∷ later; removed = before ++ (lba, hp) ∷ after })
          l)
        lba
      ≡ false
unfolding apply is_referenced add_all
apply-retires lba hp first later before after l a =
    let added : LiveSet = add_all ((lba, hp) ∷ later) (add_all first l) in
    let known : OnlyWith lba hp added.hashed =
      add_all-OnlyWith lba hp later _ a (insert-OnlyWith lba hp (add_all first l).hashed) in
    let (h, c) = remove_all-retires lba hp before after (add_all (first ++ (lba, hp) ∷ later) l) (
      subst (λ (z : LiveSet). OnlyWith lba hp z.hashed)
        (sym (add_all-append first ((lba, hp) ∷ later) l)) known) in
    rw (h, c) refl
