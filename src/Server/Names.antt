-- ===== src/Server/Names.antt =====
-- The table of names: who holds which, after `insert`.
use leaky_chat.Prelude.{
  ℕ, ◌+◌, ◌-◌, ◌<◌, ◌≡◌, ◌≢◌, inl, inr, refl, sym, ◌∙◌, arith, Option, none, some, List, [], ◌∷◌,
  length, length-append, length-replicate, get_elem?, replicate, get_elem?-set_self,
  get_elem?-set_ne, get_elem?-append_some, eq_bytes, eq_bytes_iff, if◌then◌else◌, Option-cases,
  Bool-cases, ℕ_discrete, get_elem?-append_replicate,
}
use leaky_chat.Server.{NameMap, get_sid, erase, assign, ensure, erase_old, insert}

-- No name stands twice among the keys.
abbrev pub Distinct : List (List ℕ × ℕ) → Type 0
Distinct [] = Unit {0}
Distinct ((k, sid) ∷ r) = (get_sid k r ≡ none) × Distinct r

get_sid-erase :
    (n j : List ℕ) (r : List (List ℕ × ℕ))
    → Distinct r
    → get_sid j (erase n r) ≡ (if eq_bytes n j then none else get_sid j r)
unfolding get_sid erase
get_sid-erase n j [] d = ground arith
get_sid-erase n j ((k, sid) ∷ r) d =
    ground (arith, eq_bytes_iff n j, eq_bytes_iff k j, eq_bytes_iff k n, get_sid-erase n j r d.1)

get_sid-assign :
    (n j : List ℕ) (id : ℕ) (r : List (List ℕ × ℕ))
    → get_sid j (assign n id r) ≡ (if eq_bytes n j then some id else get_sid j r)
unfolding get_sid assign
get_sid-assign n j id [] = refl
get_sid-assign n j id ((k, sid) ∷ r) =
    ground (arith, eq_bytes_iff n j, eq_bytes_iff k j, eq_bytes_iff k n, get_sid-assign n j id r)

erase-Distinct : (n : List ℕ) (r : List (List ℕ × ℕ)) → Distinct r → Distinct (erase n r)
unfolding erase
erase-Distinct n [] d = tt
erase-Distinct n ((k, sid) ∷ r) d = ground (arith, erase-Distinct n r d.1, get_sid-erase n k r d.1)

assign-Distinct :
    (n : List ℕ) (id : ℕ) (r : List (List ℕ × ℕ)) → Distinct r → Distinct (assign n id r)
unfolding assign get_sid
assign-Distinct n id [] d = (refl, tt)
assign-Distinct n id ((k, sid) ∷ r) d =
    ground (
      arith,
      assign-Distinct n id r d.1,
      get_sid-assign n k id r,
      eq_bytes_iff n k,
      eq_bytes_iff k n,
    )

-- The two tables agree: whoever holds a name by `reverseMap` has it in `mData`, and
-- whoever has a name that is not empty in `mData` holds it.
pub record IsValid (m : NameMap) : Type 0 where
  pub distinct : Distinct m.holders
  pub complete :
      (n : List ℕ) (sid : ℕ)
      → get_elem? m.names sid ≡ some n
      → n ≢ []
      → get_sid n m.holders ≡ some sid
  pub sound :
      (n : List ℕ) (sid : ℕ) → get_sid n m.holders ≡ some sid → get_elem? m.names sid ≡ some n

ensure-keeps :
    (k sid : ℕ) (n : List ℕ) (names : List (List ℕ))
    → get_elem? names sid ≡ some n
    → get_elem? (ensure k names) sid ≡ some n
unfolding ensure
ensure-keeps k sid n names h = get_elem?-append_some names _ sid n h

length-ensure : (id : ℕ) (names : List (List ℕ)) → id < length (ensure (id + 1) names)
unfolding ensure
length-ensure id names = omega (
  arith,
  length-append names (replicate (id + 1 - length names) []),
  length-replicate (id + 1 - length names) (let e : List ℕ = [] in e),
)

-- What `erase` of the old name leaves.
get_sid-erase_old :
    (old : Option (List ℕ)) (j : List ℕ) (r : List (List ℕ × ℕ)) (sid : ℕ)
    → Distinct r
    → get_sid j (erase_old old r) ≡ some sid
    → (get_sid j r ≡ some sid) × (old ≢ some j)
unfolding erase_old
get_sid-erase_old none j r sid d h = (h, λ e. cc)
get_sid-erase_old (some old) j r sid d h = (
  ground (arith, get_sid-erase old j r d),
  λ e. ground (arith, get_sid-erase old j r d, eq_bytes_iff old j),
)

erase_old-Distinct :
    (old : Option (List ℕ)) (r : List (List ℕ × ℕ)) → Distinct r → Distinct (erase_old old r)
unfolding erase_old
erase_old-Distinct none r d = d
erase_old-Distinct (some old) r d = erase-Distinct old r d

-- After `insert` the name is held by `id`; any other name is held as before, but for the name that
-- `id` had, which nobody holds.
pub get_sid-insert :
    (id : ℕ) (n j : List ℕ) (m : NameMap)
    → get_sid j (insert id n m).holders
      ≡ (if eq_bytes n j then some id else get_sid j (erase_old (get_elem? m.names id) m.holders))
unfolding insert
get_sid-insert id n j m = get_sid-assign n j id (erase_old (get_elem? m.names id) m.holders)

pub get_sid-insert_self :
    (id : ℕ) (n : List ℕ) (m : NameMap) → get_sid n (insert id n m).holders ≡ some id
get_sid-insert_self id n m = ground (arith, get_sid-insert id n n m, eq_bytes_iff n n)

-- A name that another socket holds is kept, unless it is empty.
pub get_sid-insert_other :
    (id sid : ℕ) (n j : List ℕ) (m : NameMap)
    → IsValid m
    → n ≢ j
    → sid ≢ id
    → j ≢ []
    → get_sid j m.holders ≡ some sid
    → get_sid j (insert id n m).holders ≡ some sid
unfolding erase_old
get_sid-insert_other id sid n j m v ne other full h = elim (Option-cases (get_elem? m.names id)) [
  | inl e ↦ ground (arith, get_sid-insert id n j m, eq_bytes_iff n j)
  | inr (old, e) ↦
      let differs : old ≢ j = λ q.
        let k : get_sid j m.holders ≡ some id = v.complete j id (rw (← q) e) full in ground arith in
      ground (
        arith,
        get_sid-insert id n j m,
        eq_bytes_iff n j,
        eq_bytes_iff old j,
        get_sid-erase old j m.holders v.distinct,
      )
]

pub get_sid-insert_free :
    (id : ℕ) (n j : List ℕ) (m : NameMap)
    → IsValid m
    → n ≢ j
    → get_sid j m.holders ≡ none
    → get_sid j (insert id n m).holders ≡ none
unfolding erase_old
get_sid-insert_free id n j m v ne h = elim (Option-cases (get_elem? m.names id)) [
  | inl e ↦ ground (arith, get_sid-insert id n j m, eq_bytes_iff n j)
  | inr (old, e) ↦
      ground
        (arith, get_sid-insert id n j m, eq_bytes_iff n j, get_sid-erase old j m.holders v.distinct)
]

-- Whoever holds the empty name loses it when a socket that has no name yet takes one.
insert_evicts_empty :
    (id : ℕ) (n : List ℕ) (m : NameMap)
    → IsValid m
    → get_elem? m.names id ≡ some []
    → n ≢ []
    → get_sid [] (insert id n m).holders ≡ none
unfolding erase_old
insert_evicts_empty id n m v e ne = ground (
  arith,
  get_sid-insert id n [] m,
  eq_bytes_iff n [],
  eq_bytes_iff [] [],
  get_sid-erase [] [] m.holders v.distinct,
)

pub names-insert_self :
    (id : ℕ) (n : List ℕ) (m : NameMap) → get_elem? (insert id n m).names id ≡ some n
unfolding insert
names-insert_self id n m =
    get_elem?-set_self (ensure (id + 1) m.names) id n (length-ensure id m.names)

pub names-insert_other :
    (id sid : ℕ) (n j : List ℕ) (m : NameMap)
    → id ≢ sid
    → get_elem? m.names sid ≡ some j
    → get_elem? (insert id n m).names sid ≡ some j
unfolding insert
names-insert_other id sid n j m ne h =
    get_elem?-set_ne (ensure (id + 1) m.names) id sid n ne ∙ ensure-keeps (id + 1) sid j m.names h

pub names-insert_inv :
    (id sid : ℕ) (n j : List ℕ) (m : NameMap)
    → id ≢ sid
    → j ≢ []
    → get_elem? (insert id n m).names sid ≡ some j
    → get_elem? m.names sid ≡ some j
unfolding insert ensure
names-insert_inv id sid n j m ne full h =
    elim (get_elem?-append_replicate m.names (id + 1 - length m.names) sid [] j
      (sym (get_elem?-set_ne (ensure (id + 1) m.names) id sid n ne) ∙ h)) [
        | inl e ↦ e
        | inr e ↦ absurd (full e)
      ]

module _ (id : ℕ) (n : List ℕ) (m : NameMap) (v : IsValid m) where
  insert_sound :
      (j : List ℕ) (sid : ℕ)
      → get_sid j (insert id n m).holders ≡ some sid
      → get_elem? (insert id n m).names sid ≡ some j
  insert_sound j sid h = elim (Bool-cases (eq_bytes n j)) [
    | inl e ↦
        let k : id ≡ sid = ground (arith, get_sid-insert id n j m) in
        let same : n ≡ j = (eq_bytes_iff n j).0 e in rw (← k, ← same) (names-insert_self id n m)
    | inr e ↦
        let (held, moved) =
          get_sid-erase_old (get_elem? m.names id) j m.holders sid v.distinct
            (ground (arith, get_sid-insert id n j m)) in
        let there : get_elem? m.names sid ≡ some j = v.sound j sid held in
        names-insert_other id sid n j m (λ q. moved (rw q there)) there
  ]

  insert_complete :
      get_sid n m.holders ≡ none
      → (j : List ℕ) (sid : ℕ) → get_elem? (insert id n m).names sid ≡ some j
      → j ≢ []
      → get_sid j (insert id n m).holders ≡ some sid
  insert_complete free j sid h full = elim (ℕ_discrete id sid) [
    | yes q ↦
        let k : n ≡ j = ground (arith, names-insert_self id n m) in
        rw (← q, ← k) (get_sid-insert_self id n m)
    | no ne ↦
        let held : get_sid j m.holders ≡ some sid =
          v.complete j sid (names-insert_inv id sid n j m ne full h) full in
        get_sid-insert_other id sid n j m v (λ q. ground arith) (λ q. ne (sym q)) full held
  ]

  -- Taking a free name keeps the two tables in agreement.
  pub insert-IsValid : get_sid n m.holders ≡ none → IsValid (insert id n m)
  unfolding insert
  insert-IsValid free = record {
    distinct =
        assign-Distinct n id _ (erase_old-Distinct (get_elem? m.names id) m.holders v.distinct);
    complete = λ j sid h full. insert_complete free j sid h full;
    sound = λ j sid h. insert_sound j sid h;
  }
