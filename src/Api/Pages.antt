-- ===== src/Api/Pages.antt =====
-- internal/api/pagination.go: the limit and the offset of a page. `atoi` is strconv.Atoi, and the two
-- texts are the values of the query, empty where they are missing.
use manteion_go.Base.{
  ◌≡◌, refl, ap, ◌∙◌, String, ◌==◌, Bool, true, false, Option, none, some, if◌then◌else◌, arith,
}
use manteion_go.Base.Int.{ℤ, pos, negsuc, ltz, lez, ◌≤ℤ◌}

abbrev pub default_page_limit : ℤ
default_page_limit = pos 20

abbrev pub default_max_limit : ℤ
default_max_limit = pos 200

pub record Page : Type 0 where
  pub offset : ℤ
  pub limit : ℤ
  pub total : ℤ

-- `if raw := …; raw != "" { if v, err := Atoi(raw); err == nil && ok(v) { … } }`
abbrev pub read_query : (String → Option ℤ) → (ℤ → Bool) → ℤ → String → ℤ
read_query atoi valid default raw =
    if raw == ""
    then default
    else elim (atoi raw) [ none ↦ default | some v ↦ if valid v then v else default ]

abbrev pub clamp_limit : ℤ → ℤ
clamp_limit limit =
    let capped = if ltz default_max_limit limit then default_max_limit else limit in
    if ltz capped (pos 1) then default_page_limit else capped

abbrev pub clamp_offset : ℤ → ℤ
clamp_offset offset = if ltz offset (pos 0) then pos 0 else offset

unfoldable pub parse_pagination : (String → Option ℤ) → String → String → ℤ × ℤ
parse_pagination atoi raw_limit raw_offset = (
  clamp_limit (read_query atoi (λ v. ltz (pos 0) v) default_page_limit raw_limit),
  clamp_offset (read_query atoi (λ v. lez (pos 0) v) (pos 0) raw_offset),
)

clamp_limit-bounds : (l : ℤ) → (pos 1 ≤ℤ clamp_limit l) × (clamp_limit l ≤ℤ pos 200)
clamp_limit-bounds (pos n) = ground arith
clamp_limit-bounds (negsuc n) = ground arith

clamp_offset-bounds : (o : ℤ) → pos 0 ≤ℤ clamp_offset o
clamp_offset-bounds (pos n) = ground arith
clamp_offset-bounds (negsuc n) = ground arith

-- Whatever the query says, the limit is from 1 to 200 and the offset is not negative.
pub parse_pagination-bounds :
    (atoi : String → Option ℤ) (raw_limit raw_offset : String)
    → (pos 1 ≤ℤ (parse_pagination atoi raw_limit raw_offset).0)
      × ((parse_pagination atoi raw_limit raw_offset).0 ≤ℤ pos 200)
      × (pos 0 ≤ℤ (parse_pagination atoi raw_limit raw_offset).1)
unfolding parse_pagination
parse_pagination-bounds atoi raw_limit raw_offset =
    let (low, high) =
      clamp_limit-bounds (read_query atoi (λ v. ltz (pos 0) v) default_page_limit raw_limit) in
    (low, high, clamp_offset-bounds (read_query atoi (λ v. lez (pos 0) v) (pos 0) raw_offset))

in_range : (l : ℤ) → pos 1 ≤ℤ l → l ≤ℤ pos 200 → clamp_limit l ≡ l
in_range (pos n) low high = ground arith
in_range (negsuc n) low high = absurd (omega (arith, low))

natural_offset : (o : ℤ) → pos 0 ≤ℤ o → clamp_offset o ≡ o
natural_offset (pos n) low = ground arith
natural_offset (negsuc n) low = absurd (omega (arith, low))

read_asked :
    (atoi : String → Option ℤ) (valid : ℤ → Bool) (default : ℤ) (raw : String) (v : ℤ)
    → (raw == "") ≡ false
    → atoi raw ≡ some v
    → valid v ≡ true
    → read_query atoi valid default raw ≡ v
read_asked atoi valid default raw v given reads ok = rw (given, reads, ok) refl

-- A query that asks for a limit from 1 to 200 and an offset that is not negative gets both.
pub parse_pagination_asked :
    (atoi : String → Option ℤ) (raw_limit raw_offset : String) (l o : ℤ)
    → (raw_limit == "") ≡ false
    → (raw_offset == "") ≡ false
    → atoi raw_limit ≡ some l
    → atoi raw_offset ≡ some o
    → pos 1 ≤ℤ l
    → l ≤ℤ pos 200
    → pos 0 ≤ℤ o
    → parse_pagination atoi raw_limit raw_offset ≡ (l, o)
unfolding parse_pagination
parse_pagination_asked atoi raw_limit raw_offset l o given given' reads reads' low high natural =
    let limit =
      ap clamp_limit (
        read_asked atoi (λ v. ltz (pos 0) v) default_page_limit raw_limit l given reads
          (ground (arith, low)))
      ∙ in_range l low high in
    let offset =
      ap clamp_offset (
        read_asked atoi (λ v. lez (pos 0) v) (pos 0) raw_offset o given' reads'
          (ground (arith, natural)))
      ∙ natural_offset o natural in
    λ i. (limit i, offset i)
