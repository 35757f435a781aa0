-- ===== src/Store/Rules/RoundTrip.antt =====
-- internal/store/rule_repo.go: what Get reads after Create and Update.
use manteion_go.Base.{
  ℕ, suc, ◌≡◌, refl, sym, ap, ◌∙◌, inl, inr, String, ◌==◌, Bool, true, not, ◌||◌, Option, none,
  some, List, [], ◌∷◌, Bool-cases, Option-cases, text_eq, text_self, Check,
}
use manteion_go.Base.Result.{ok}
use manteion_go.Model.Rule.{Rule, CacheBoxRuleConfig, validate_rule}
use manteion_go.Store.Rules.{
  null_string, from_null_string, Codec, Labels, RuleRow, RuleTable, null_cache_box_mode,
  null_cache_box_key_strategy, scan_cache_box, find_row, has_row, update_rows, to_row, scan_rule,
  get, set_row, create, update,
}

-- Reading the labels gives what was written.
abbrev pub RoundTrips : Codec → Labels → Type 0
RoundTrips codec l = codec.decode (codec.encode l) ≡ some l

pub string_back : (s : String) → from_null_string (null_string s) ≡ s
string_back s = elim (Bool-cases (s == "")) [
  | inl e ↦ rw (e) (sym (text_eq s "" e))
  | inr e ↦ rw (e) refl
]

cache_box_back :
    (c : Option CacheBoxRuleConfig)
    → scan_cache_box (null_cache_box_mode c) (null_cache_box_key_strategy c) ≡ c
cache_box_back none = refl
cache_box_back (some c) = refl

find_row-update_rows :
    (id : String) (f : RuleRow → RuleRow) (rows : List RuleRow) (old : RuleRow)
    → ((r : RuleRow) → (f r).id ≡ r.id)
    → find_row id rows ≡ some old
    → (find_row id (update_rows id f rows) ≡ some (f old)) × (old.id ≡ id)
unfolding find_row update_rows
find_row-update_rows id f [] old keep h = cc
find_row-update_rows id f (r ∷ rows) old keep h = elim (Bool-cases (r.id == id)) [
  | inl e ↦
      let h' = rw (e) at h in
      let same : r ≡ old = cc in
      let kept : ((f r).id == id) ≡ true = ap (λ x. x == id) (keep r) ∙ e in
      rw (e, kept)
        (ap (λ x. some (f x)) same, ap (λ (x : RuleRow). x.id) (sym same) ∙ text_eq r.id id e)
  | inr e ↦ let h' = rw (e) at h in rw (e, e) (find_row-update_rows id f rows old keep h')
]

module _ (codec : Codec) where
  scan-to_row :
      (r : Rule) → RoundTrips codec r.match.labels → scan_rule codec (to_row codec r) ≡ ok r
  unfolding scan_rule
  scan-to_row r back =
      rw
        (
          back,
          string_back r.match.injection_point,
          string_back r.action.fault_spec_id,
          string_back r.action.fault_comp_id,
          cache_box_back r.action.cache_box,
        )
        refl

  scan-set_row :
      (r : Rule) (now : ℕ) (old : RuleRow)
      → RoundTrips codec r.match.labels
      → old.id ≡ r.id
      → scan_rule codec (set_row codec r now old)
        ≡ ok (record r { created_at = old.created_at; updated_at = now })
  unfolding scan_rule
  scan-set_row r now old back same =
      rw
        (
          back,
          string_back r.match.injection_point,
          string_back r.action.fault_spec_id,
          string_back r.action.fault_comp_id,
          cache_box_back r.action.cache_box,
          same,
        )
        refl

  module _ (admits : RuleRow → Bool) where
    create_done :
        (rule rule' : Rule) (t t' : RuleTable)
        → create codec admits rule t ≡ (none, rule', t')
        → (validate_rule rule ≡ (rule', none))
          × (t' ≡ record { rows = to_row codec rule' ∷ t.rows; version = suc t.version })
    unfolding create
    create_done rule rule' t t' h = elim (Option-cases (validate_rule rule).1) [
      | inr (e, bad) ↦ let h' = rw (bad, create) at h in cc
      | inl good ↦
          elim (Bool-cases (
            has_row (validate_rule rule).0.id t.rows
            || not (admits (to_row codec (validate_rule rule).0)))) [
              | inl taken ↦ let h' = rw (good, create, taken) at h in cc
              | inr free ↦
                  let h' = rw (good, create, free) at h in
                  let same : (validate_rule rule).0 ≡ rule' =
                    ap (λ (x : Check × Rule × RuleTable). x.1) h' in
                  let last = ap (λ (x : Check × Rule × RuleTable). x.2) h' in
                  let table : Rule → RuleTable =
                    λ r. record { rows = to_row codec r ∷ t.rows; version = suc t.version } in
                  (λ i. (same i, good i), sym last ∙ ap table same)
            ]
    ]

    -- A rule that Create accepts is read back by Get, as Validate left it, if its labels can be read
    -- back.
    pub create-get :
        (rule rule' : Rule) (t t' : RuleTable)
        → create codec admits rule t ≡ (none, rule', t')
        → RoundTrips codec rule'.match.labels
        → (validate_rule rule ≡ (rule', none)) × (get codec rule'.id t' ≡ ok rule')
    unfolding get find_row
    create-get rule rule' t t' h back =
        let (valid, made) = create_done rule rule' t t' h in
        (valid, rw (made, text_self rule'.id, get) (scan-to_row rule' back))

    update_done :
        (rule rule' : Rule) (now : ℕ) (t t' : RuleTable)
        → update codec admits rule now t ≡ (none, rule', t')
        → (old : RuleRow) × (validate_rule rule ≡ (rule', none))
          × (find_row rule'.id t.rows ≡ some old)
          × (t' ≡ record {
            rows = update_rows rule'.id (set_row codec rule' now) t.rows;
            version = suc t.version;
          })
    unfolding update
    update_done rule rule' now t t' h = elim (Option-cases (validate_rule rule).1) [
      | inr (e, bad) ↦ let h' = rw (bad, update) at h in cc
      | inl good ↦ elim (Option-cases (find_row (validate_rule rule).0.id t.rows)) [
        | inl gone ↦ let h' = rw (good, update, gone) at h in cc
        | inr (old, there) ↦
            elim (Bool-cases (not (admits (set_row codec (validate_rule rule).0 now old)))) [
              | inl bad ↦ let h' = rw (good, update, there, bad) at h in cc
              | inr fits ↦
                  let h' = rw (good, update, there, fits) at h in
                  let same : (validate_rule rule).0 ≡ rule' =
                    ap (λ (x : Check × Rule × RuleTable). x.1) h' in
                  let last = ap (λ (x : Check × Rule × RuleTable). x.2) h' in
                  let table : Rule → RuleTable = λ r. record {
                    rows = update_rows r.id (set_row codec r now) t.rows;
                    version = suc t.version;
                  } in
                  let look_up : Rule → Option RuleRow = λ r. find_row r.id t.rows in
                  (
                    old,
                    λ i. (same i, good i),
                    sym (ap look_up same) ∙ there,
                    sym last ∙ ap table same,
                  )
            ]
      ]
    ]

    -- A rule that Update accepts was there before and is read back by Get as Validate left it, with
    -- the time of its creation and the time of the update, if its labels can be read back.
    pub update-get :
        (rule rule' : Rule) (now : ℕ) (t t' : RuleTable)
        → update codec admits rule now t ≡ (none, rule', t')
        → RoundTrips codec rule'.match.labels
        → (old : RuleRow) × (find_row rule'.id t.rows ≡ some old)
          × (get codec rule'.id t'
              ≡ ok (record rule' { created_at = old.created_at; updated_at = now }))
    unfolding get
    update-get rule rule' now t t' h back =
        let (old, _, there, made) = update_done rule rule' now t t' h in
        let (found, same) =
          find_row-update_rows rule'.id (set_row codec rule' now) t.rows old (λ r. refl) there in
        (old, there, rw (made, found, get) (scan-set_row rule' now old back same))
