-- ===== src/Dict.antt =====
-- Go's `map[string]V`. Proofs go by `dict_laws`; tests unfold the operations. Iteration goes in
-- the order of the entries; Go's order is unspecified, so no result below depends on it.
use mathlib.Core.List.{Memᴰ}
use vessel.Prelude.{
  String, ◌≡◌, refl, inl, inr, Bool, Option, none, some, List, [], ◌∷◌, map, arith, str_eq, eq_iff,
  is_none, true, eq_refl, if◌then◌else◌, is_empty, Bool-cases,
}

abbrev pub Rows {ℓ} : Type ℓ → Type ℓ
Rows Value = List (String × Value)

module _ {ℓ} {V : Type ℓ} where
  unfoldable pub seek : String → Rows V → Option V
  seek key [] = none
  seek key ((other, value) ∷ rows) = if str_eq other key then some value else seek key rows

  unfoldable pub strike : String → Rows V → Rows V
  strike key [] = []
  strike key ((other, value) ∷ rows) =
      let rest = strike key rows in if str_eq other key then rest else (other, value) ∷ rest

  seek-strike :
      (key other : String) (rows : Rows V)
      → seek other (strike key rows) ≡ (if str_eq key other then none else seek other rows)
  unfolding seek strike
  seek-strike key other [] = ground arith
  seek-strike key other ((at, value) ∷ rows) =
      ground (arith, seek-strike key other rows, eq_iff at key, eq_iff at other, eq_iff key other)

  -- every key stands in one entry
  abbrev pub Absent : String → Rows V → Type 0
  Absent key rows = is_none (seek key rows) ≡ true

  abbrev pub HasDistinctKeys : Rows V → Type 0
  HasDistinctKeys [] = Unit
  HasDistinctKeys ((key, value) ∷ rows) = Absent key rows × HasDistinctKeys rows

  strike-Absent :
      (key other : String) (rows : Rows V) → Absent other rows → Absent other (strike key rows)
  strike-Absent key other rows h = rw (seek-strike key other rows) (ground arith)

  strike-HasDistinctKeys :
      (key : String) (rows : Rows V) → HasDistinctKeys rows → HasDistinctKeys (strike key rows)
  unfolding strike
  strike-HasDistinctKeys key [] h = h
  strike-HasDistinctKeys key ((other, value) ∷ rows) h = elim (Bool-cases (str_eq other key)) [
    | inl same ↦ rw same (strike-HasDistinctKeys key rows h.1)
    | inr same ↦ rw same (strike-Absent key other rows h.0, strike-HasDistinctKeys key rows h.1)
  ]

  seek-values :
      (key : String) (value : V) (rows : Rows V)
      → seek key rows ≡ some value
      → Memᴰ value (map (λ row. row.1) rows)
  unfolding seek
  seek-values key value [] h = ground arith
  seek-values key value ((other, kept) ∷ rows) h = elim (Bool-cases (str_eq other key)) [
    | inl same ↦ Memᴰ.head (ground (arith, h, same))
    | inr same ↦ Memᴰ.tail (seek-values key value rows (rw same at h))
  ]

  values-seek :
      (value : V) (rows : Rows V)
      → HasDistinctKeys rows
      → Memᴰ value (map (λ row. row.1) rows)
      → (key : String) × (seek key rows ≡ some value)
  unfolding seek
  values-seek value [] h found = elim found [ ]
  values-seek value ((other, kept) ∷ rows) h (Memᴰ.head same) =
      (other, rw (eq_refl other) (ground (arith, same)))
  values-seek value ((other, kept) ∷ rows) h (Memᴰ.tail found) =
      let (key, found) = values-seek value rows h.1 found in
      (key, ground (arith, eq_iff other key, h.0))

pub record Dict {ℓ} (V : Type ℓ) : Type ℓ where
  pub rows_of : Rows V

module _ {ℓ} {V : Type ℓ} where
  -- map[string]V{}
  unfoldable pub empty : Dict V
  empty = record { rows_of = [] }

  -- value, ok := m[key]
  unfoldable pub get : Dict V → String → Option V
  unfolding seek
  get m key = seek key m.rows_of

  -- delete(m, key)
  unfoldable pub remove : Dict V → String → Dict V
  unfolding strike
  remove m key = record { rows_of = strike key m.rows_of }

  -- m[key] = value
  unfoldable pub put : Dict V → String → V → Dict V
  unfolding strike
  put m key value = record { rows_of = (key, value) ∷ strike key m.rows_of }

  pub get-remove :
      (m : Dict V) (key other : String)
      → get (remove m key) other ≡ (if str_eq key other then none else get m other)
  unfolding get remove
  get-remove m key other = seek-strike key other m.rows_of

  pub get-put :
      (m : Dict V) (key other : String) (value : V)
      → get (put m key value) other ≡ (if str_eq key other then some value else get m other)
  unfolding get put seek
  get-put m key other value = simp seek-strike (ground arith)

  -- The values, as `for _, value := range m` visits them.
  unfoldable pub values : Dict V → List V
  values m = map (λ row. row.1) m.rows_of

  -- Each key has one entry, which holds of every map that the operations build.
  pub record IsMap (m : Dict V) : Type 0 where
    pub distinct : HasDistinctKeys m.rows_of

  pub remove-IsMap : (m : Dict V) (key : String) → IsMap m → IsMap (remove m key)
  unfolding remove
  remove-IsMap m key h = record { distinct = strike-HasDistinctKeys key m.rows_of h.distinct }

  pub put-IsMap : (m : Dict V) (key : String) (value : V) → IsMap m → IsMap (put m key value)
  unfolding put
  put-IsMap m key value h = record {
    distinct = (
      rw (seek-strike key key m.rows_of) (rw (eq_refl key) refl),
      strike-HasDistinctKeys key m.rows_of h.distinct,
    );
  }

  -- Ranging over a map visits what is found under some key,
  pub get-values :
      (m : Dict V) (key : String) {value : V} → get m key ≡ some value → Memᴰ value (values m)
  unfolding get values
  get-values m key {value} h = seek-values key value m.rows_of h

  -- and nothing else.
  pub values-get :
      (m : Dict V) {value : V}
      → IsMap m
      → Memᴰ value (values m)
      → (key : String) × (get m key ≡ some value)
  unfolding get values
  values-get m {value} h found = values-seek value m.rows_of h.distinct found

  -- len(m) == 0
  unfoldable pub is_empty_dict : Dict V → Bool
  is_empty_dict m = is_empty m.rows_of

  seek-is_empty : (key : String) (rows : Rows V) → is_empty rows ≡ true → seek key rows ≡ none
  unfolding seek
  seek-is_empty key [] h = refl
  seek-is_empty key (row ∷ rows) h = ground (arith, h)

  pub get-is_empty_dict : (m : Dict V) (key : String) → is_empty_dict m ≡ true → get m key ≡ none
  unfolding is_empty_dict get
  get-is_empty_dict m key h = seek-is_empty key m.rows_of h

pub get-empty {ℓ} : {V : Type ℓ} (key : String) → get (empty {V = V}) key ≡ none
unfolding get empty seek
get-empty key = refl

pub empty-IsMap {ℓ} : {V : Type ℓ} → IsMap (empty {V = V})
unfolding empty
empty-IsMap = record { distinct = tt }

pub values-empty {ℓ} : {V : Type ℓ} → values (empty {V = V}) ≡ []
unfolding empty values
values-empty = refl

pub ruleset dict_laws = (get-empty, get-remove, get-put)
