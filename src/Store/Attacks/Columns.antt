-- ===== src/Store/Attacks/Columns.antt =====
-- internal/store/workload_repo.go and internal/db/migrations.go: what CreateAttack does with the columns
-- that the table has.
use manteion_go.Base.{
  ◌≡◌, refl, sym, ap, ◌∙◌, inl, inr, String, Bool, not, ◌||◌, none, some, List, [], ◌∷◌, Check, new,
  Bool-cases, Option-cases, text_self,
}
use manteion_go.Base.Int.{pos}
use manteion_go.Base.Float.{zero_float}
use manteion_go.Base.Result.{ok}
use manteion_go.Model.Attack.{Attack, validate_attack}
use manteion_go.Store.Rules.RoundTrip.{string_back}
use manteion_go.Store.Tables.{find_key, has_key}
use manteion_go.Store.Attacks.{
  HeaderCodec, AttackRow, AttackTables, attack_key, attack_row, scan_attack, create_attack,
  get_attack, includes, inserted_attack_columns, migrated_attack_columns,
}

-- Reading the headers gives what was written.
abbrev pub RoundTrips : HeaderCodec → Attack → Type 0
RoundTrips codec a =
    codec.read_headers (codec.headers_json a.target_headers) ≡ some a.target_headers

-- An attack without the fields of its result.
abbrev pub planned : Attack → Attack
planned a = record a {
  latency_p50_us = pos 0;
  latency_p90_us = pos 0;
  latency_p95_us = pos 0;
  latency_p99_us = pos 0;
  total_requests = 0;
  success_rate = zero_float;
  status_codes = [];
  errors = [];
}

module _ (codec : HeaderCodec) (keyed : AttackRow → Bool) where
  scan-attack_row :
      (a : Attack) → RoundTrips codec a → scan_attack codec (attack_row codec a) ≡ ok (planned a)
  unfolding scan_attack
  scan-attack_row a back =
      rw
        (
          scan_attack,
          back,
          string_back a.experiment_run_id,
          string_back a.policy_rule_id,
          string_back a.dedup_bypass,
          string_back a.meta_trace_id,
          string_back a.zeus_attack_id,
        )
        refl

  -- An attack that CreateAttack stores is read back by GetAttack without the fields of its result, if
  -- its headers can be read back.
  pub create_attack-get_attack :
      (columns : List String) (a : Attack) (t t' : AttackTables)
      → create_attack codec columns keyed a t ≡ (none, t')
      → RoundTrips codec a
      → get_attack codec a.id t' ≡ ok (planned a)
  unfolding create_attack get_attack find_key
  create_attack-get_attack columns a t t' h back = elim (Option-cases (validate_attack a)) [
    | inr (cause, bad) ↦ let h' = rw (bad, create_attack) at h in cc
    | inl good ↦
        elim (Bool-cases (
          not (includes columns inserted_attack_columns)
          || has_key attack_key a.id t.attacks
          || not (keyed (attack_row codec a)))) [
            | inl e ↦ let h' = rw (good, create_attack, e) at h in cc
            | inr e ↦
                let h' = rw (good, create_attack, e) at h in
                let made : t' ≡ record t { attacks = attack_row codec a ∷ t.attacks } =
                  ap (λ (x : Check × AttackTables). x.1) (sym h') in
                ap (λ x. get_attack codec a.id x) made
                ∙ rw (text_self a.id, get_attack) (scan-attack_row a back)
          ]
  ]

  -- With the columns that the migrations leave, CreateAttack stores no attack: it answers a valid one
  -- with the error of the insert.
  pub create_attack_migrated :
      (a : Attack) (t : AttackTables)
      → validate_attack a ≡ none
      → create_attack codec migrated_attack_columns keyed a t ≡ (some (new "insert attack: %w"), t)
  unfolding create_attack
  create_attack_migrated a t valid = rw (valid, create_attack) refl
