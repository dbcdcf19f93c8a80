-- ===== src/RedBlack/Put.antt =====
-- Get and Put (dsa/redblack/redblack.go) against sorted association lists.
use learn_go.Prelude.{
  ◌≡◌, refl, Bool, true, false, Option, none, some, List, ◌∷◌, ◌++◌, arith, ◌>>=◌,
}
use learn_go.Prelude.Ordered.{Ordered}
use learn_go.Prelude.Assoc
use learn_go.Prelude.Assoc.{IsSorted, IsSplit, IsSorted-IsSplit}
use learn_go.RedBlack.Node.{Node, nil, node, balance, in_order}
use learn_go.RedBlack.Descent.{get, put}
use learn_go.RedBlack.Contents.{Keeps, balance-Keeps}

-- Whether a call that looked a key up missed it.
abbrev pub is_none {ℓ} : {A : Type ℓ} → Option A → Bool
is_none none = true
is_none (some a) = false

module _ {ℓ κ} {K : Type ℓ} {V : Type κ} ⦃o : Ordered K⦄ where
  -- The loop of Get finds in a search tree what its list of pairs holds.
  pub get-in_order :
      (t : Node K V) (key : K) → IsSorted (in_order t) → get t key ≡ Assoc.get (in_order t) key
  unfolding get in_order
  get-in_order nil key s = refl
  get-in_order (node c l k v r) key s =
      let p = IsSorted-IsSplit (in_order l) k v (in_order r) s in
      ground (
        arith,
        get-in_order l key p.left,
        get-in_order r key p.right,
        Assoc.get_left key k v (in_order r) (in_order l),
        Assoc.get_mid key k v (in_order r) (in_order l),
        Assoc.get_right key k v (in_order r) (in_order l),
        p.below,
        p.above,
      )

  -- A call of `put` either panics or returns the pairs `e` and the flag `f`.
  abbrev pub Gives : List (K × V) → Bool → Option (Node K V × Bool) → Type (ℓ ⊔ κ)
  Gives e f none = Unit
  Gives e f (some (t, new)) = (in_order t ≡ e) × (new ≡ f)

  rebuild :
      (e : List (K × V)) (f : Bool) (h : Node K V)
      → in_order h ≡ e
      → Gives e f (balance h >>= λ t. some (t, f))
  rebuild e f h p = go (balance h) (rw p at (balance-Keeps h))
    where
      go : (m : Option (Node K V)) → Keeps e m → Gives e f (m >>= λ t. some (t, f))
      go none q = tt
      go (some t) q = (q, refl)

  rebuild_left :
      (c : Bool) (k : K) (v : V) (r : Node K V) (e : List (K × V)) (f : Bool)
      (m : Option (Node K V × Bool))
      → Gives e f m
      → Gives
          (e ++ (k, v) ∷ in_order r)
          f
          (m >>= λ (l', new). balance (node c l' k v r) >>= λ h. some (h, new))
  unfolding in_order
  rebuild_left c k v r e f none p = tt
  rebuild_left c k v r e f (some (l', new)) p =
      rw p.1 (rebuild (e ++ (k, v) ∷ in_order r) f (node c l' k v r) (rw p.0))

  rebuild_right :
      (c : Bool) (l : Node K V) (k : K) (v : V) (e : List (K × V)) (f : Bool)
      (m : Option (Node K V × Bool))
      → Gives e f m
      → Gives
          (in_order l ++ (k, v) ∷ e)
          f
          (m >>= λ (r', new). balance (node c l k v r') >>= λ h. some (h, new))
  unfolding in_order
  rebuild_right c l k v e f none p = tt
  rebuild_right c l k v e f (some (r', new)) p =
      rw p.1 (rebuild (in_order l ++ (k, v) ∷ e) f (node c l k v r') (rw p.0))

  -- The pairs after `put` are the list's `put`, and the flag says that the key was new.
  pub put-in_order :
      (t : Node K V) (key : K) (value : V)
      → IsSorted (in_order t)
      → Gives
          (Assoc.put key value (in_order t))
          (is_none (Assoc.get (in_order t) key))
          (put t key value)
  unfolding put in_order
  put-in_order nil key value s = (refl, refl)
  put-in_order (node c l k v r) key value s =
      let p = IsSorted-IsSplit (in_order l) k v (in_order r) s in
      ground (
        arith,
        rebuild_left c k v r _ _ (put l key value) (put-in_order l key value p.left),
        rebuild_right c l k v _ _ (put r key value) (put-in_order r key value p.right),
        rebuild (in_order l ++ (k, value) ∷ in_order r) false (node c l k value r) refl,
        Assoc.put_left key k v (in_order r) value (in_order l),
        Assoc.put_mid key k v (in_order r) value (in_order l),
        Assoc.put_right key k v (in_order r) value (in_order l),
        Assoc.get_left key k v (in_order r) (in_order l),
        Assoc.get_mid key k v (in_order r) (in_order l),
        Assoc.get_right key k v (in_order r) (in_order l),
        p.below,
        p.above,
      )
