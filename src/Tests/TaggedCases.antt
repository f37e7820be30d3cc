-- ===== src/Tests/TaggedCases.antt =====
-- A collection of entries that are a key and a number, in a value that is their list; a valid entry has
-- a key that is not 0. The key 77 and the number 99 end in an exception.
use sstoraged.Common.{
  ℕ, ◌+◌, ◌≡◌, refl, ap, ◌∙◌, true, ltb, ◌==◌, if◌then◌else◌, Option, none, some, List, [], ◌∷◌,
  ◌++◌, length, get_elem?, take, drop, arith,
}
use sstoraged.Tagged.{
  JsonArray, JsonLaws, ConfigInfo, InfoLaws, Tagged, new_tagged, begin_infos, current, remove,
}
use sstoraged.Tagged.Entries.{Keeps}
use sstoraged.Tagged.Lookup.{AllUsable}
use sstoraged.Tagged.Plain.{Op, op_add, op_del, op_find, op_clear, on_lists}
use sstoraged.Tagged.Clearing.{remove_stale}
use sstoraged.Tagged.Contents.{run_ops, Answers, run_ops-Answers, add-del}

abbrev Entry : Type 0
Entry = ℕ × ℕ

abbrev or_zero : Option Entry → Entry
or_zero none = (0, 0)
or_zero (some x) = x

abbrev json : JsonArray (List Entry) Entry
json = record {
  size = length;
  is_array = λ a. true;
  entry = λ a i. or_zero (get_elem? a i);
  append = λ v a. a ++ (v ∷ []);
  put = λ i v a. take i a ++ (v ∷ drop (i + 1) a);
  clear = λ a. [];
}

abbrev json_laws : JsonLaws json
json_laws = record {
  Stores = λ a l. a ≡ l;
  sized = λ a l s. ap length s;
  array = λ a l s h. refl;
  at = λ a l i v s e. ap or_zero (ap (λ (q : List Entry). get_elem? q i) s ∙ e);
  appended = λ a l v s. ap (λ (q : List Entry). q ++ (v ∷ [])) s;
  cleared = λ a l s. refl;
}

abbrev info : ConfigInfo Entry Entry ℕ
info = record {
  get_key = λ x. if x.0 == 77 then none else some x.0;
  serialize = λ x. x;
  valid = λ x. if x.1 == 99 then none else some (ltb 0 x.0);
  parse = λ v i. some v;
  same = λ a b. a == b;
}

abbrev info_laws : InfoLaws info
info_laws = record { restored = λ x i v. refl; same_self = λ k. ground arith }

abbrev entries : List Entry
entries = (1, 10) ∷ (2, 20) ∷ (3, 30) ∷ []

abbrev entries_AllUsable : AllUsable info entries
entries_AllUsable = (
  record { is_valid = refl; key = 1; has = refl },
  (
    record { is_valid = refl; key = 2; has = refl },
    (record { is_valid = refl; key = 3; has = refl }, tt),
  ),
)

abbrev steps : List (Op Entry ℕ)
steps = op_del 2 ∷ op_add (0, 5) ∷ op_add (3, 9) ∷ op_add (4, 40) ∷ op_find 2 ∷ op_clear ∷ []

run_ops-Answers_example :
    Answers json info json_laws info_laws
      (on_lists info steps entries)
      (run_ops json info steps (new_tagged entries))
run_ops-Answers_example =
    run_ops-Answers json info json_laws info_laws steps (new_tagged entries) entries refl
      entries_AllUsable (omega arith)

add-del_example :
    (t' : Tagged (List Entry) Entry) × (run_ops json info
        (op_add (4, 40) ∷ (op_find 4 ∷ (op_del 4 ∷ [])))
        (new_tagged entries)
      ≡ some (true ∷ (true ∷ (true ∷ [])), t'))
    × Keeps json info json_laws t'.root entries
add-del_example =
    add-del json info json_laws info_laws (4, 40) (new_tagged entries) entries
      (record { is_valid = refl; key = 4; has = refl }) refl entries_AllUsable (omega arith) refl

remove_stale_example :
    (t' : Tagged (List Entry) Entry) × (begin_infos json info (new_tagged entries)
      ≡ some (true, t'))
    × ((remove json info t').0 ≡ true)
    × ((remove json info t').1.index ≡ 0)
    × Keeps json info json_laws (remove json info t').1.root ((2, 20) ∷ (3, 30) ∷ [])
    × (current json info (remove json info t').1 ≡ some ((1, 10), (remove json info t').1))
remove_stale_example =
    remove_stale json info json_laws info_laws (new_tagged entries) (1, 10) (2, 20) ((3, 30) ∷ [])
      refl refl
