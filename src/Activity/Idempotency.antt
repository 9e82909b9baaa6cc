-- ===== src/Activity/Idempotency.antt =====
-- internal/activityhelpers/idempotency.go: the key that an activity shows to other services. The
-- hash and its hexadecimal text are one parameter, `digest`.
use temporal_mistakes.Base.{
  ℕ, ◌≡◌, ◌≢◌, ap, ◌↔◌, Option, none, some, String, List, [], ◌∷◌, ◌++◌, All, arith,
}
use temporal_mistakes.Sdk.{ActivityInfo}

-- What `getIdempotencyToken` writes into the hash: the three identifiers, with null bytes between.
unfoldable pub preimage : {F : Type 0} → ActivityInfo F → List ℕ
preimage info = info.workflow_id ++ (0 ∷ (info.run_id ++ (0 ∷ info.activity_id)))

module _ (digest : List ℕ → String) where
  unfoldable pub token_of_info : {F : Type 0} → ActivityInfo F → String
  token_of_info info = digest (preimage info)

  -- `GetIdempotencyToken`; `none` is a context that is not an activity's.
  unfoldable pub get_idempotency_token : {F : Type 0} → Option (ActivityInfo F) → String
  get_idempotency_token none = ""
  get_idempotency_token (some info) = token_of_info info

abbrev pub NoNull : List ℕ → Type 0
NoNull = All (λ b. b ≢ 0)

-- The first null byte ends an identifier, so two equal encodings have equal parts.
split_at_null :
    (xs ys s t : List ℕ)
    → NoNull xs
    → NoNull ys
    → xs ++ (0 ∷ s) ≡ ys ++ (0 ∷ t)
    → (xs ≡ ys) × (s ≡ t)
split_at_null [] [] s t h k e = ground arith
split_at_null [] (y ∷ ys) s t h k e = absurd (k.0 (ground arith))
split_at_null (x ∷ xs) [] s t h k e = absurd (h.0 (ground arith))
split_at_null (x ∷ xs) (y ∷ ys) s t h k e =
    let tails : xs ++ (0 ∷ s) ≡ ys ++ (0 ∷ t) = cc in
    let heads : x ≡ y = cc in let (p, q) = split_at_null xs ys s t h.1 k.1 tails in (cc, q)

abbrev pub HasPlainIds : {F : Type 0} → ActivityInfo F → Type 0
HasPlainIds a = NoNull a.workflow_id × NoNull a.run_id × NoNull a.activity_id

preimage_inj :
    {F : Type 0} (a b : ActivityInfo F)
    → HasPlainIds a
    → HasPlainIds b
    → preimage a ≡ preimage b
    → (a.workflow_id ≡ b.workflow_id) × (a.run_id ≡ b.run_id) × (a.activity_id ≡ b.activity_id)
unfolding preimage
preimage_inj a b h k e =
    let (w, rest) = split_at_null a.workflow_id b.workflow_id _ _ h.0 k.0 e in
    let (r, i) = split_at_null a.run_id b.run_id _ _ h.1 k.1 rest in (w, r, i)

preimage_congr :
    {F : Type 0} (a b : ActivityInfo F)
    → a.workflow_id ≡ b.workflow_id
    → a.run_id ≡ b.run_id
    → a.activity_id ≡ b.activity_id
    → preimage a ≡ preimage b
unfolding preimage
preimage_congr a b w r i = λ j. w j ++ (0 ∷ (r j ++ (0 ∷ i j)))

-- The token is the same on every attempt of an activity execution.
pub get_idempotency_token_congr :
    (digest : List ℕ → String) {F : Type 0} (a b : ActivityInfo F)
    → a.workflow_id ≡ b.workflow_id
    → a.run_id ≡ b.run_id
    → a.activity_id ≡ b.activity_id
    → get_idempotency_token digest (some a) ≡ get_idempotency_token digest (some b)
unfolding get_idempotency_token token_of_info
get_idempotency_token_congr digest a b w r i = ap digest (preimage_congr a b w r i)

-- If no identifier holds a null byte and the digests of the two encodings do not collide, two
-- activity executions have the same token exactly when their workflow, run and activity
-- identifiers agree, whatever their attempt numbers are.
pub get_idempotency_token_iff :
    (digest : List ℕ → String) {F : Type 0} (a b : ActivityInfo F)
    → HasPlainIds a
    → HasPlainIds b
    → (digest (preimage a) ≡ digest (preimage b) → preimage a ≡ preimage b)
    → (get_idempotency_token digest (some a) ≡ get_idempotency_token digest (some b))
      ↔ ((a.workflow_id ≡ b.workflow_id) × (a.run_id ≡ b.run_id) × (a.activity_id ≡ b.activity_id))
unfolding get_idempotency_token token_of_info
get_idempotency_token_iff digest a b h k no_collision = (
  λ e. preimage_inj a b h k (no_collision e),
  λ t. get_idempotency_token_congr digest a b t.0 t.1 t.2,
)
