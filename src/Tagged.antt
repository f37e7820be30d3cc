-- ===== src/Tagged.antt =====
-- include/taggedconfigurator.h: TaggedConfigurator, the entries of one tag of the configuration, with an
-- iterator that is the object itself. The JSON value and the class of the entries are arguments. The
-- `none` of a result is an exception: of a value that is not an array, or of an entry that its class
-- does not take.
pub mod Entries
pub mod Lookup
pub mod Plain
pub mod Clearing
pub mod Contents
use sstoraged.Common.{
  ℕ, zero, suc, ◌+◌, ◌-◌, Bool, true, false, not, ltb, ◌==◌, if◌then◌else◌, Option, none, some,
  List, [], ◌∷◌, length, get_elem?, add64, sub64, ◌≡◌, ◌<◌, ◌++◌,
}

-- What the code calls of a JSON value that is an array of values.
pub record JsonArray (A V : Type 0) : Type 0 where
  pub size : A → ℕ
  pub is_array : A → Bool
  pub entry : A → ℕ → V
  pub append : V → A → A
  pub put : ℕ → V → A → A
  pub clear : A → A

-- What JSON values promise: `Stores a l` is that `a` is the array of the values `l`, or null where there
-- are none.
pub record JsonLaws {A V : Type 0} (J : JsonArray A V) : Type 1 where
  pub Stores : A → List V → Type 0
  pub sized : (a : A) (l : List V) → Stores a l → J.size a ≡ length l
  pub array : (a : A) (l : List V) → Stores a l → 0 < length l → J.is_array a ≡ true
  pub at :
      (a : A) (l : List V) (i : ℕ) (v : V) → Stores a l → get_elem? l i ≡ some v → J.entry a i ≡ v
  pub appended : (a : A) (l : List V) (v : V) → Stores a l → Stores (J.append v a) (l ++ (v ∷ []))
  pub cleared : (a : A) (l : List V) → Stores a l → Stores (J.clear a) []

-- `ConfigInfo`, with the constructor from a value and its index, and the equality of the keys. The key of
-- an entry and its validity may end in an exception.
pub record ConfigInfo (V I K : Type 0) : Type 0 where
  pub get_key : I → Option K
  pub serialize : I → V
  pub valid : I → Option Bool
  pub parse : V → ℕ → Option I
  pub same : K → K → Bool

-- A valid entry is read as it was written, at every index.
pub record InfoLaws {V I K : Type 0} (N : ConfigInfo V I K) : Type 0 where
  pub restored : (x : I) (i : ℕ) → N.valid x ≡ some true → N.parse (N.serialize x) i ≡ some x
  pub same_self : (k : K) → N.same k k ≡ true

-- `TaggedConfigurator`
pub record Tagged (A I : Type 0) : Type 0 where
  pub root : A
  pub index : ℕ
  pub prev_index : ℕ
  pub current_info : Option I

abbrev pub new_tagged : {A I : Type 0} → A → Tagged A I
new_tagged a = record { root = a; index = 0; prev_index = 0; current_info = none }

module _ {A V I K : Type 0} (J : JsonArray A V) (N : ConfigInfo V I K) where
  -- `get` of the implementation.
  abbrev pub get_info : ℕ → A → Option I
  get_info key a = if J.is_array a then N.parse (J.entry a key) key else none

  -- `add` of the implementation.
  abbrev pub add_info : I → A → Option (Bool × A)
  add_info x a = elim (N.valid x) [
    | none ↦ none
    | some true ↦ some (true, J.append (N.serialize x) a)
    | some false ↦ some (false, a)
  ]

  -- The loop of `del`, over a copy.
  unfoldable pub del_loop : A → ℕ → ℕ → ℕ → A → Bool × A
  del_loop tmp key counter zero a = (false, a)
  del_loop tmp key counter (suc left) a =
      let skipped = del_loop tmp key (counter + 1) left a in
      let copied = del_loop tmp key (counter + 1) left (J.append (J.entry tmp counter) a) in
      if counter == key then (true, skipped.1) else copied

  -- `del` of the implementation.
  abbrev pub del_info : ℕ → A → Bool × A
  del_info key a = del_loop a key 0 (J.size a) (J.clear a)

  -- `update` of the implementation.
  abbrev pub update_info : I → ℕ → A → Option (Bool × A)
  update_info x key a = elim (N.valid x) [
    | none ↦ none
    | some true ↦ some (true, J.put key (N.serialize x) a)
    | some false ↦ some (false, a)
  ]

  -- `begin`: whether the iterator differs from `end()`.
  unfoldable pub begin_infos : Tagged A I → Option (Bool × Tagged A I)
  begin_infos t =
      let first = get_info 0 t.root in
      if J.size t.root == 0 then some (false, t) else elim first [
        | none ↦ none
        | some x ↦ some (true, record t { index = 0; prev_index = 0; current_info = some x })
      ]

  -- `next`
  abbrev pub next_info : Tagged A I → Bool × Tagged A I
  next_info t = (ltb (add64 t.index 1) (J.size t.root), record t { index = add64 t.index 1 })

  -- `current`: with the index of before, the entry of before. A null pointer is an exception here.
  unfoldable pub current : Tagged A I → Option (I × Tagged A I)
  current t =
      let read = get_info t.index t.root in
      if not (t.index == t.prev_index)
      then elim read [
        | none ↦ none
        | some x ↦ some (x, record t { current_info = some x; prev_index = t.index })
      ]
      else elim t.current_info [ none ↦ none | some x ↦ some (x, t) ]

  -- The loop of `find`, from an iterator that is not `end()`, on fuel.
  unfoldable pub find_loop : ℕ → K → Tagged A I → Option (Bool × Tagged A I)
  find_loop zero k t = none
  find_loop (suc n) k t = elim (current t) [
    | none ↦ none
    | some (x, t') ↦ elim (N.get_key x) [
      | none ↦ none
      | some key ↦ elim (N.same key k) [
        | true ↦ some (true, t')
        | false ↦ elim (next_info t').0 [
          | true ↦ find_loop n k (next_info t').1
          | false ↦ some (false, (next_info t').1)
        ]
      ]
    ]
  ]

  -- `find`: whether the iterator differs from `end()`.
  unfoldable pub find_info : K → Tagged A I → Option (Bool × Tagged A I)
  find_info k t = elim (begin_infos t) [
    | none ↦ none
    | some (false, t') ↦ some (false, t')
    | some (true, t') ↦ find_loop (J.size t.root) k t'
  ]

  -- `add`
  unfoldable pub add : I → Tagged A I → Option (Bool × Tagged A I)
  add x t = elim (N.get_key x) [
    | none ↦ none
    | some k ↦ elim (find_info k t) [
      | none ↦ none
      | some (true, t') ↦ some (false, t')
      | some (false, t') ↦ elim (add_info x t'.root) [
        | none ↦ none
        | some (ok, a) ↦ some (ok, record t' { root = a })
      ]
    ]
  ]

  -- `del`
  unfoldable pub del : K → Tagged A I → Option (Bool × Tagged A I)
  del k t = elim (find_info k t) [
    | none ↦ none
    | some (false, t') ↦ some (false, t')
    | some (true, t') ↦ let r = del_info t'.index t'.root in some (r.0, record t' { root = r.1 })
  ]

  -- `remove`, at the iterator that stands: the index is one less, and then one more.
  unfoldable pub remove : Tagged A I → Bool × Tagged A I
  remove t = next_info (record t { root = (del_info t.index t.root).1; index = sub64 t.index 1 })

  -- The loop of `clear`, from an iterator that is not `end()`, on fuel.
  unfoldable pub clear_loop : ℕ → Tagged A I → Option (Tagged A I)
  clear_loop zero t = none
  clear_loop (suc n) t = elim (remove t).0 [
    | true ↦ clear_loop n (remove t).1
    | false ↦ some (remove t).1
  ]

  -- `clear`
  unfoldable pub clear : Tagged A I → Option (Tagged A I)
  clear t = elim (begin_infos t) [
    | none ↦ none
    | some (false, t') ↦ some t'
    | some (true, t') ↦ clear_loop (J.size t.root) t'
  ]

  -- `update`
  unfoldable pub update_current : I → Tagged A I → Option (Bool × Tagged A I)
  update_current x t =
      let written : Option (Bool × Tagged A I) = elim (update_info x t.index t.root) [
        | none ↦ none
        | some (ok, a) ↦ some (ok, record t { root = a })
      ] in
      if ltb (J.size t.root) t.index then some (false, t) else written
