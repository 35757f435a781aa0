-- ===== src/Composition/Directions.antt =====
-- internal/model/composition_validate.go: which network faults may act at the same time.
use manteion_go.Base.{
  ◌≡◌, refl, sym, ap, ◌∙◌, ◌↔◌, inl, inr, String, ◌==◌, false, none, List, [], ◌∷◌, ◌++◌, All,
  All-weaken, Bool-cases, text_eq,
}
use manteion_go.Composition.{
  NetworkMemberInfo, direction_key, add_to, group_by_direction, check_groups,
}

-- Every direction has one type so far.
abbrev AllSingle : List (String × List String) → Type 0
AllSingle [] = Unit
AllSingle ((dir, a ∷ []) ∷ rest) = AllSingle rest
AllSingle ((dir, _) ∷ rest) = ⊥

-- Every direction has at least one.
abbrev AllFilled : List (String × List String) → Type 0
AllFilled [] = Unit
AllFilled ((dir, []) ∷ rest) = ⊥
AllFilled ((dir, a ∷ types) ∷ rest) = AllFilled rest

abbrev Fresh : String → List (String × List String) → Type 0
Fresh key [] = Unit
Fresh key ((k, types) ∷ rest) = ((k == key) ≡ false) × Fresh key rest

check_groups-single :
    (id : String) (gs : List (String × List String))
    → AllFilled gs
    → (check_groups id gs ≡ none) ↔ AllSingle gs
unfolding check_groups
check_groups-single id [] f = (λ h. tt, λ s. refl)
check_groups-single id ((dir, []) ∷ rest) f = absurd f
check_groups-single id ((dir, a ∷ []) ∷ rest) f = check_groups-single id rest f
check_groups-single id ((dir, a ∷ b ∷ types) ∷ rest) f = (λ h. cc, λ s. absurd s)

append-filled :
    (key t : String) (types : List String) (rest : List (String × List String))
    → AllFilled rest
    → AllFilled ((key, types ++ t ∷ []) ∷ rest)
append-filled key t [] rest f = f
append-filled key t (a ∷ types) rest f = f

tail-filled :
    (dir : String) (types : List String) (rest : List (String × List String))
    → AllFilled ((dir, types) ∷ rest)
    → AllFilled rest
tail-filled dir [] rest f = absurd f
tail-filled dir (a ∷ types) rest f = f

cons-filled :
    (dir : String) (types : List String) (rest added : List (String × List String))
    → AllFilled ((dir, types) ∷ rest)
    → AllFilled added
    → AllFilled ((dir, types) ∷ added)
cons-filled dir [] rest added f g = absurd f
cons-filled dir (a ∷ types) rest added f g = g

add_to-AllFilled :
    (key t : String) (gs : List (String × List String)) → AllFilled gs → AllFilled (add_to key t gs)
unfolding add_to
add_to-AllFilled key t [] f = tt
add_to-AllFilled key t ((k, types) ∷ rest) f = elim (Bool-cases (k == key)) [
  | inl e ↦ rw (e) (append-filled k t types rest (tail-filled k types rest f))
  | inr e ↦ rw (e) (
      cons-filled k types rest (add_to key t rest) f
        (add_to-AllFilled key t rest (tail-filled k types rest f)))
]

-- An addition keeps the directions single exactly where its direction is new.
add_to-AllSingle :
    (key t : String) (gs : List (String × List String))
    → AllFilled gs
    → AllSingle (add_to key t gs) ↔ (AllSingle gs × Fresh key gs)
unfolding add_to
add_to-AllSingle key t [] f = (λ s. (tt, tt), λ p. tt)
add_to-AllSingle key t ((k, []) ∷ rest) f = absurd f
add_to-AllSingle key t ((k, a ∷ []) ∷ rest) f = elim (Bool-cases (k == key)) [
  | inl e ↦ rw (e) (λ s. absurd s, λ (s, (new, fresh)). cc)
  | inr e ↦
      let (to, from) = add_to-AllSingle key t rest f in
      rw (e) (λ s. ((to s).0, (refl, (to s).1)), λ (s, (new, fresh)). from (s, fresh))
]
add_to-AllSingle key t ((k, a ∷ b ∷ types) ∷ rest) f = elim (Bool-cases (k == key)) [
  | inl e ↦ rw (e) (λ s. absurd s, λ (s, n). absurd s)
  | inr e ↦ rw (e) (λ s. absurd s, λ (s, n). absurd s)
]

Fresh-add_to :
    (key k t : String) (gs : List (String × List String))
    → Fresh key (add_to k t gs) ↔ (((k == key) ≡ false) × Fresh key gs)
unfolding add_to
Fresh-add_to key k t [] = (λ h. h, λ h. h)
Fresh-add_to key k t ((k', types) ∷ rest) = elim (Bool-cases (k' == k)) [
  | inl e ↦
      let same : (k == key) ≡ (k' == key) = ap (λ x. x == key) (sym (text_eq k' k e)) in
      rw (e) (λ (h, hs). (same ∙ h, (h, hs)), λ (n, (h, hs)). (h, hs))
  | inr e ↦
      let (to, from) = Fresh-add_to key k t rest in
      rw (e) (λ (h, hs). ((to hs).0, (h, (to hs).1)), λ (n, (h, hs)). (h, from (n, hs)))
]

-- No two network faults have the same direction, where none counts as a direction of its own.
abbrev pub DirectionsDiffer : List NetworkMemberInfo → Type 0
DirectionsDiffer [] = Unit
DirectionsDiffer (m ∷ ms) =
    All (λ n. (direction_key m == direction_key n) ≡ false) ms × DirectionsDiffer ms

split :
    (P Q : NetworkMemberInfo → Type 0) (ms : List NetworkMemberInfo)
    → All (λ m. P m × Q m) ms
    → All P ms × All Q ms
split P Q [] h = (tt, tt)
split P Q (m ∷ ms) ((p, q), h) = let (ps, qs) = split P Q ms h in ((p, ps), (q, qs))

join :
    (P Q : NetworkMemberInfo → Type 0) (ms : List NetworkMemberInfo)
    → All P ms
    → All Q ms
    → All (λ m. P m × Q m) ms
join P Q [] p q = tt
join P Q (m ∷ ms) (p, ps) (q, qs) = ((p, q), join P Q ms ps qs)

group_by_direction-AllSingle :
    (ms : List NetworkMemberInfo) (gs : List (String × List String))
    → AllFilled gs
    → AllSingle (group_by_direction ms gs)
      ↔ (AllSingle gs × All (λ m. Fresh (direction_key m) gs) ms × DirectionsDiffer ms)
unfolding group_by_direction
group_by_direction-AllSingle [] gs f = (λ s. (s, tt, tt), λ p. p.0)
group_by_direction-AllSingle (m ∷ ms) gs f =
    let key = direction_key m in
    let (to, from) =
      group_by_direction-AllSingle ms (add_to key m.fault_type gs)
        (add_to-AllFilled key m.fault_type gs f) in
    let (single_to, single_from) = add_to-AllSingle key m.fault_type gs f in
    (
      λ s.
          let (single, fresh, differ) = to s in
          let (before, new) = single_to single in
          let (others, old) =
            split (λ n. (key == direction_key n) ≡ false) (λ n. Fresh (direction_key n) gs) ms
              (All-weaken ms (λ n h. (Fresh-add_to (direction_key n) key m.fault_type gs).0 h)
                fresh) in
          (before, (new, old), (others, differ)),
      λ (single, (new, old), (others, differ)). from (
        single_from (single, new),
        All-weaken ms (λ n h. (Fresh-add_to (direction_key n) key m.fault_type gs).1 h)
            (join (λ n. (key == direction_key n) ≡ false) (λ n. Fresh (direction_key n) gs) ms
              others old),
        differ,
      ),
    )

group_by_direction-AllFilled :
    (ms : List NetworkMemberInfo) (gs : List (String × List String))
    → AllFilled gs
    → AllFilled (group_by_direction ms gs)
unfolding group_by_direction
group_by_direction-AllFilled [] gs f = f
group_by_direction-AllFilled (m ∷ ms) gs f =
    group_by_direction-AllFilled ms (add_to (direction_key m) m.fault_type gs)
      (add_to-AllFilled (direction_key m) m.fault_type gs f)

none-Fresh : (ms : List NetworkMemberInfo) → All (λ m. Fresh (direction_key m) []) ms
none-Fresh [] = tt
none-Fresh (m ∷ ms) = (tt, none-Fresh ms)

-- The check of the directions of a parallel composition accepts its network faults exactly where no
-- two of them have the same direction.
pub check_groups_iff :
    (id : String) (ms : List NetworkMemberInfo)
    → (check_groups id (group_by_direction ms []) ≡ none) ↔ DirectionsDiffer ms
check_groups_iff id ms =
    let (to, from) =
      check_groups-single id (group_by_direction ms []) (group_by_direction-AllFilled ms [] tt) in
    let (grouped, group) = group_by_direction-AllSingle ms [] tt in
    (λ h. (grouped (to h)).2, λ d. from (group (tt, none-Fresh ms, d)))
