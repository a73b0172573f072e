-- ===== src/Packs/FewShot.antt =====
-- A few-shot run never scores an item that it was shown.
use multi_agent_testbed.Base.{
  suc, ◌-◌, ◌<◌, ◌≡◌, ◌⊎◌, ◌+◌, refl, sym, ap, subst, String, Bool, true, false, not, ◌||◌, List,
  [], ◌∷◌, ◌++◌, map, ℤ, pos, negsuc, leb_ℤ, if◌then◌else◌, contains, length, All, take-drop,
  length-drop, Outcome, returned, raised, inl, inr, leb-false, arith, str_eq, str_eq→eq, eq_refl,
}
use multi_agent_testbed.Packs.Claims.{AreDistinct}
use multi_agent_testbed.Packs.LmEval.{
  Item, Datasets, LmEvalConfig, LmEvalTasks, SourceError, load_items, loaded_then, slice_to,
  slice_from, case_of, cases, configure, metrics, no_evaluation_items, unknown_metric,
}

abbrev pub ids : List Item → List String
ids = map (λ i. i.item_id)

slice_to-slice_from : {A : Type 0} (n : ℤ) (xs : List A) → slice_to n xs ++ slice_from n xs ≡ xs
slice_to-slice_from (pos n) xs = take-drop n xs
slice_to-slice_from (negsuc n) xs = take-drop (length xs - suc n) xs

ids-append : (xs ys : List Item) → ids (xs ++ ys) ≡ ids xs ++ ids ys
ids-append [] ys = refl
ids-append (x ∷ xs) ys = ap (◌∷◌ x.item_id) (ids-append xs ys)

contains-append :
    (xs ys : List String) (s : String) → contains (xs ++ ys) s ≡ contains xs s || contains ys s
contains-append [] ys s = refl
contains-append (x ∷ xs) ys s = ground (arith, contains-append xs ys s)

-- In a list without repetitions nothing of the second part stands in the first.
apart :
    (xs ys : List String) (s : String)
    → AreDistinct (xs ++ ys)
    → contains ys s ≡ true
    → contains xs s ≡ false
apart [] ys s d h = refl
apart (x ∷ xs) ys s d h =
    let here : str_eq x s ≡ true → contains (xs ++ ys) s ≡ false =
      λ e. subst (λ z. contains (xs ++ ys) z ≡ false) (str_eq→eq x s e) d.0 in
    ground (arith, apart xs ys s d.1 h, here, contains-append xs ys s, h)

not_shown :
    (t : LmEvalTasks) (xs : List Item)
    → ((s : String) → contains (ids xs) s ≡ true → contains (ids t.fewshot) s ≡ false)
    → All (λ c. contains (ids t.fewshot) c.task_id ≡ false) (map (case_of t) xs)
unfolding case_of
not_shown t [] f = tt
not_shown t (x ∷ xs) f =
    (f x.item_id (rw (eq_refl x.item_id) refl), not_shown t xs (λ s h. f s (ground (arith, h))))

loaded_then-returned :
    {A B : Type 0} (m : Outcome SourceError A) (f : A → Outcome SourceError B) (b : B)
    → loaded_then f m ≡ returned b
    → (a : A) × (m ≡ returned a) × (f a ≡ returned b)
loaded_then-returned (returned a) f b h = (a, refl, h)
loaded_then-returned (raised e) f b h = cc

few_left :
    (n : ℤ) (items : List Item)
    → leb_ℤ (pos (length items)) n ≡ false
    → (leb_ℤ (pos 0) n ≡ false) ⊎ (0 < length (slice_from n items))
few_left (pos n) items h =
    inr (omega (arith, length-drop n items, leb-false (length items + 0) (n + 0) h))
few_left (negsuc n) items h = inl (ground arith)

-- The tasks that `configure` returns.
abbrev tasks_of : LmEvalConfig → List Item → LmEvalTasks
tasks_of c items = record {
  items = slice_from c.num_fewshot items;
  fewshot = slice_to c.num_fewshot items;
  eval_set_kind = c.eval_set_kind;
  answer_hint = c.answer_hint;
}

-- The two guards of `configure`.
abbrev guarded : Bool → Bool → LmEvalTasks → String → Outcome SourceError (LmEvalTasks × String)
guarded b n s m =
    if b
    then raised no_evaluation_items
    else if not n
    then raised unknown_metric
    else returned (s, m)

past_guards :
    (b n : Bool) (s t : LmEvalTasks) (m metric : String)
    → guarded b n s m ≡ returned (t, metric)
    → (b ≡ false) × (t ≡ s)
past_guards true n s t m metric h = cc
past_guards false true s t m metric h = (refl, cc)
past_guards false false s t m metric h = cc

configure-tasks_of :
    (d : Datasets) (c : LmEvalConfig) (items : List Item) (t : LmEvalTasks) (metric : String)
    → load_items d c ≡ returned items
    → configure d c ≡ returned (t, metric)
    → (leb_ℤ (pos (length items)) c.num_fewshot ≡ false) × (t ≡ tasks_of c items)
unfolding configure
configure-tasks_of d c items t metric hl hc =
    past_guards _ (contains metrics c.metric) (tasks_of c items) t c.metric metric (rw hl at hc)

-- When a pack is configured, the items that were loaded are shared out: the few-shot examples are
-- one part and the evaluated items the other, in the order of the file, and at least one item is
-- evaluated unless a negative number of examples is asked for.
pub configure-IsSplit :
    (d : Datasets) (c : LmEvalConfig) (items : List Item) (t : LmEvalTasks) (metric : String)
    → load_items d c ≡ returned items
    → configure d c ≡ returned (t, metric)
    → (t.fewshot ++ t.items ≡ items)
      × ((leb_ℤ (pos 0) c.num_fewshot ≡ false) ⊎ (0 < length t.items))
configure-IsSplit d c items t metric hl hc =
    let (enough, made) = configure-tasks_of d c items t metric hl hc in
    (
      rw made (slice_to-slice_from c.num_fewshot items),
      rw made (few_left c.num_fewshot items enough),
    )

-- Where the ids of the loaded items are distinct, no case of a configured pack is an item whose
-- answer every instruction shows.
pub configure-hides :
    (d : Datasets) (c : LmEvalConfig) (items : List Item) (t : LmEvalTasks) (metric : String)
    → load_items d c ≡ returned items
    → AreDistinct (ids items)
    → configure d c ≡ returned (t, metric)
    → All (λ e. contains (ids t.fewshot) e.task_id ≡ false) (cases t)
unfolding cases
configure-hides d c items t metric hl distinct hc =
    let (together, _) = configure-IsSplit d c items t metric hl hc in
    let parts = rw (sym together, ids-append t.fewshot t.items) at distinct in
    not_shown t t.items (λ s h. apart (ids t.fewshot) (ids t.items) s parts h)
