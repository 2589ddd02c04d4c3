-- ===== src/Hamt/Diverged.antt =====
-- src/hamt.rs, `split`: the recursion ends before the levels of the key do.
use manifestus.Base.{
  ℕ, zero, suc, ◌+◌, ◌≡◌, ◌≢◌, refl, Bool, true, false, Option, List, [], ◌∷◌, ◌++◌, length, leb,
  ◌==◌, ==_iff, arith,
}
use manifestus.Error.{Result, ok, ◌>>=◌}
use manifestus.Hamt.Walk.{chunk}
use manifestus.Hamt.Leaf.{Child, committed, dirty}
use manifestus.Hamt.Doc.{TractDoc, max_depth}
use manifestus.Hamt.State.{Hamt, push_node}
use manifestus.Hamt.Trie.{split}
use manifestus.Hamt.Keys.{IsKey, chunk-injective}
use manifestus.Hamt.Frame.{Agree, Agree-next, IsTrie, DocsRouted}
use manifestus.Hamt.Split.{LeafAt}
use manifestus.Hamt.Separated.{Separated, one, one-Separated, two, two-Separated}

module _ (docs : ℕ → List ℕ → Result (Option TractDoc)) (routed : DocsRouted docs) (ka : List ℕ)
    (la : ℕ) (ha : List ℕ) (kb : List ℕ) (lb : ℕ) (hb : List ℕ) (leaf_a : LeafAt docs ka la ha)
    (leaf_b : LeafAt docs kb lb hb) (key_a : IsKey ka) (key_b : IsKey kb) (distinct : ka ≢ kb) where
  abbrev pub Splits : ℕ → ℕ → Hamt → Type 0
  Splits left depth h =
      (r : Child) × (h' : Hamt) × (split left depth ka (committed ha la) kb (committed hb lb) h
        ≡ (ok r, h'))
      × Separated docs h.arena h'.arena (suc left) depth ka la ha kb lb hb r

  shallow : (left depth : ℕ) → suc left + depth ≡ 52 → leb max_depth depth ≡ false
  shallow left depth e = ground arith

  split_deeper :
      (left depth : ℕ) (h : Hamt)
      → suc left + depth ≡ 52
      → Agree depth ka kb
      → (chunk ka depth == chunk kb depth) ≡ true
      → Splits left (depth + 1) h
      → Splits (suc left) depth h
  unfolding split one push_node ◌>>=◌
  split_deeper left depth h levels g q (r, h1, e, below) = (
    dirty (length h1.arena),
    record h1 { arena = h1.arena ++ one ka depth r ∷ [] },
    rw (q, e) refl,
    one-Separated docs routed ka la ha kb lb hb leaf_a leaf_b h.arena h1.arena (suc left) depth r
        (shallow left depth levels) g ((==_iff (chunk ka depth) (chunk kb depth)).0 q) below,
  )

  split_here :
      (left depth : ℕ) (h : Hamt)
      → suc left + depth ≡ 52
      → Agree depth ka kb
      → IsTrie docs h.arena
      → (chunk ka depth == chunk kb depth) ≡ false
      → Splits (suc left) depth h
  unfolding split two push_node ◌>>=◌
  split_here left depth h levels g trie q = (
    dirty (length h.arena),
    record h { arena = h.arena ++ two ka la ha kb lb hb depth ∷ [] },
    rw q refl,
    two-Separated docs routed ka la ha kb lb hb leaf_a leaf_b h.arena left depth
        (shallow left depth levels) trie g (λ e. ground (arith, e)),
  )

  -- Two distinct keys of 32 bytes that agree above `depth`, with the rest of the 52 levels left: the
  -- chain is built without a panic, in an arena that only grew and stays routed. Below it the second
  -- key is found at its leaf, and any other key as the first leaf has it.
  pub split-Separated :
      (left depth : ℕ) (h : Hamt)
      → left + depth ≡ 52
      → Agree depth ka kb
      → IsTrie docs h.arena
      → Splits left depth h
  split-Separated zero depth h levels g trie =
      absurd (distinct (chunk-injective ka kb key_a key_b (λ d small. g d (omega arith))))
  split-Separated (suc left) depth h levels g trie =
      go (chunk ka depth == chunk kb depth) refl (split-Separated left (depth + 1) h)
    where
      go :
          (b : Bool)
          → (chunk ka depth == chunk kb depth) ≡ b
          → (left + (depth + 1) ≡ 52
              → Agree (depth + 1) ka kb
              → IsTrie docs h.arena
              → Splits left (depth + 1) h)
          → Splits (suc left) depth h
      go true q ih = split_deeper left depth h levels g q (
          ih (omega arith)
            (Agree-next depth ka kb g ((==_iff (chunk ka depth) (chunk kb depth)).0 q)) trie)
      go false q ih = split_here left depth h levels g trie q
