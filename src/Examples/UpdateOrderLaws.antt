-- ===== src/Examples/UpdateOrderLaws.antt =====
-- What the second version of src/assuming_signal_update_order/workflow.go keeps.
use temporal_mistakes.Base.{
  ℕ, ◌≡◌, refl, ap, ◌∙◌, ◌⊎◌, inl, inr, true, false, Bool-cases, List, [], ◌∷◌, ◌++◌, All, arith,
}
use temporal_mistakes.Examples.UpdateOrder.{
  Change, leb_bytes, Latest, is_in_order, update, update_all, no_update, my_workflow_v2,
}

leb_bytes_refl : (a : List ℕ) → leb_bytes a a ≡ true
unfolding leb_bytes
leb_bytes_refl [] = refl
leb_bytes_refl (x ∷ a) = ground (arith, leb_bytes_refl a)

leb_bytes_total : (a b : List ℕ) → leb_bytes a b ≡ false → leb_bytes b a ≡ true
unfolding leb_bytes
leb_bytes_total [] b h = absurd (ground arith)
leb_bytes_total (x ∷ a) [] h = refl
leb_bytes_total (x ∷ a) (y ∷ b) h = ground (arith, leb_bytes_total a b)

leb_bytes_trans :
    (a b c : List ℕ) → leb_bytes a b ≡ true → leb_bytes b c ≡ true → leb_bytes a c ≡ true
unfolding leb_bytes
leb_bytes_trans [] b c h k = refl
leb_bytes_trans (x ∷ a) [] c h k = absurd (ground arith)
leb_bytes_trans (x ∷ a) (y ∷ b) [] h k = absurd (ground arith)
leb_bytes_trans (x ∷ a) (y ∷ b) (z ∷ c) h k = ground (arith, leb_bytes_trans a b c)

-- `s` is one of the changes, or the state from before them.
abbrev pub IsFrom : Latest → List Change → Latest → Type 0
IsFrom start cs s =
    (s ≡ start)
    ⊎ ((before : List Change) × (c : Change) × (after : List Change) × (cs ≡ before ++ (c ∷ after))
        × (s.last_id ≡ c.id)
        × (s.last_data ≡ c.content))

abbrev pub IsLatest : Latest → List Change → Latest → Type 0
IsLatest start cs s =
    (leb_bytes start.last_id s.last_id ≡ true)
    × All (λ c. leb_bytes c.id s.last_id ≡ true) cs
    × IsFrom start cs s

update-rises :
    (s : Latest) (c : Change)
    → (leb_bytes s.last_id (update s c).last_id ≡ true)
      × (leb_bytes c.id (update s c).last_id ≡ true)
      × ((update s c ≡ s) ⊎ (update s c ≡ record { last_id = c.id; last_data = c.content }))
unfolding update is_in_order
update-rises s c = elim (Bool-cases (leb_bytes c.id s.last_id)) [
  | inl e ↦ rw e (leb_bytes_refl s.last_id, e, inl refl)
  | inr e ↦ rw e (leb_bytes_total c.id s.last_id e, leb_bytes_refl c.id, inr refl)
]

later :
    (c : Change) (cs : List Change) (s t u : Latest)
    → (t ≡ s) ⊎ (t ≡ record { last_id = c.id; last_data = c.content })
    → IsFrom t cs u
    → IsFrom s (c ∷ cs) u
later c cs s t u e (inr (before, d, after, p, i, j)) =
    inr (c ∷ before, d, after, ap (λ l. c ∷ l) p, i, j)
later c cs s t u (inl e) (inl k) = inl (k ∙ e)
later c cs s t u (inr e) (inl k) =
    inr ([], c, cs, refl, ap (λ x. x.last_id) (k ∙ e), ap (λ x. x.last_data) (k ∙ e))

update_all-IsLatest : (s : Latest) (cs : List Change) → IsLatest s cs (update_all s cs)
unfolding update_all
update_all-IsLatest s [] = (leb_bytes_refl s.last_id, tt, inl refl)
update_all-IsLatest s (c ∷ cs) =
    let (above, at_most, e) = update-rises s c in
    let (rises, all, from) = update_all-IsLatest (update s c) cs in
    let final = (update_all (update s c) cs).last_id in
    (
      leb_bytes_trans s.last_id (update s c).last_id final above rises,
      (leb_bytes_trans c.id (update s c).last_id final at_most rises, all),
      later c cs s (update s c) (update_all (update s c) cs) e from,
    )

-- In whatever order the changes are delivered, the second version ends with a change whose ID no
-- delivered ID exceeds, and returns its data; without an accepted change it returns the empty text.
my_workflow_v2_latest :
    (cs : List Change) → (s : Latest) × (my_workflow_v2 cs ≡ s.last_data) × IsLatest no_update cs s
unfolding my_workflow_v2
my_workflow_v2_latest cs = (update_all no_update cs, refl, update_all-IsLatest no_update cs)
