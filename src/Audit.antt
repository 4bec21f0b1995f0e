-- ===== src/Audit.antt =====
-- The hash chain of the audit log: `appendInTx`, `findLeaf`, `canonicalJson` and `verifyChain` of
-- src/services/audit.service.ts. Three parts of the runtime are parameters: `digest` is the sha256 of
-- a text in hexadecimal, `iso` is `toISOString`, `stringify` is `JSON.stringify` on the values that
-- are no objects.
pub mod Walk
pub mod Verified
pub mod Append
use hpx_eigen_s1_foundation.Common.{
  ℕ, zero, suc, Bool, true, false, not, ◌&&◌, ◌||◌, Option, none, some, is_some, List, [], ◌∷◌,
  ◌++◌, String, Text, codes, text_eq, ltb, ◌==◌, keep, length, some_of, get_or_else, if◌then◌else◌,
}
use hpx_eigen_s1_foundation.Store.{Result, ok, err, audit_chain_branch}
use hpx_eigen_s1_foundation.Fields.Types.{
  Json, null, bool, num, str, array, object, Items, done, item, Entries, end, entry,
}
use hpx_eigen_s1_foundation.Fields.Graph.{has}

-- A row of AuditLog. Of who acted and from where only the user is kept.
pub record AuditRow : Type 0 where
  pub id : ℕ
  pub tenant_id : ℕ
  pub event_type : Text
  pub entity_type : Text
  pub entity_id : ℕ
  pub actor_user_id : Option ℕ
  pub operation : Text
  pub payload : Json
  pub before_state : Json
  pub after_state : Json
  pub previous_hash : Option Text
  pub current_hash : Text
  pub hash_version : ℕ
  pub created_at : ℕ

-- `AuditAppendInput`
pub record AuditAppendInput : Type 0 where
  pub tenant_id : ℕ
  pub event_type : Text
  pub entity_type : Text
  pub entity_id : ℕ
  pub actor_user_id : Option ℕ
  pub operation : Text
  pub payload : Json
  pub before_state : Option Json
  pub after_state : Option Json

-- The order of `sort()` on strings: by code units.
unfoldable pub text_less : Text → Text → Bool
text_less [] [] = false
text_less [] (y ∷ ys) = true
text_less (x ∷ xs) [] = false
text_less (x ∷ xs) (y ∷ ys) = ltb x y || (x == y && text_less xs ys)

unfoldable pub insert_key : Text × Text → List (Text × Text) → List (Text × Text)
unfolding text_less
insert_key kv [] = kv ∷ []
insert_key (k, v) ((l, w) ∷ es) =
    let rest = insert_key (k, v) es in if text_less l k then (l, w) ∷ rest else (k, v) ∷ (l, w) ∷ es

-- `Object.keys(obj).sort()`, with the text of each value
unfoldable pub sort_keys : List (Text × Text) → List (Text × Text)
unfolding insert_key
sort_keys [] = []
sort_keys (kv ∷ es) = insert_key kv (sort_keys es)

module _ (stringify : Json → Text) where
  unfoldable pub join_entries : List (Text × Text) → Text
  join_entries [] = []
  join_entries ((k, v) ∷ []) = stringify (str k) ++ codes ":" ++ v
  join_entries ((k, v) ∷ e ∷ es) =
      stringify (str k) ++ codes ":" ++ v ++ codes "," ++ join_entries (e ∷ es)

  -- `canonicalJson`, on a value, the values of an array and the entries of an object
  unfoldable mutual
    unfolding sort_keys join_entries

    pub canonical_json : Json → Text
    canonical_json null = codes "null"
    canonical_json (bool b) = stringify (bool b)
    canonical_json (num x) = stringify (num x)
    canonical_json (str s) = stringify (str s)
    canonical_json (array xs) = codes "[" ++ join_items xs ++ codes "]"
    canonical_json (object es) =
        codes "{" ++ join_entries (sort_keys (canonical_entries es)) ++ codes "}"

    pub join_items : Items → Text
    join_items done = []
    join_items (item v done) = canonical_json v
    join_items (item v xs) = canonical_json v ++ codes "," ++ join_items xs

    pub canonical_entries : Entries → List (Text × Text)
    canonical_entries end = []
    canonical_entries (entry k v es) = (k, canonical_json v) ∷ canonical_entries es

module _ (iso : ℕ → Text) (stringify : Json → Text) where
  -- What a row says: the text that is hashed.
  unfoldable pub hash_input : Option Text → Json → Json → Json → ℕ → Text
  unfolding canonical_json
  hash_input previous payload before after now =
      codes "1"
      ++ get_or_else previous []
      ++ canonical_json stringify payload
      ++ canonical_json stringify before
      ++ canonical_json stringify after
      ++ iso now

module _ (digest : Text → Text) (iso : ℕ → Text) (stringify : Json → Text) where
  -- The digest that a row should carry; only version 1 is checked.
  unfoldable pub is_intact : AuditRow → Bool
  unfolding hash_input
  is_intact r =
      not (r.hash_version == 1)
      || text_eq
          (digest (
            hash_input iso stringify r.previous_hash r.payload r.before_state r.after_state
              r.created_at))
          r.current_hash

abbrev pub follows : Text → AuditRow → Bool
follows hash r = elim r.previous_hash [ none ↦ false | some h ↦ text_eq h hash ]

-- `byPreviousHash.get(hash) || []`
unfoldable pub successors : List AuditRow → Text → List AuditRow
successors rows hash = keep (follows hash) rows

-- The rows of the tenant that no row follows.
unfoldable pub leaves : List AuditRow → List AuditRow
leaves rows = keep (λ r. not (some_of (follows r.current_hash) rows)) rows

abbrev only_leaf : List AuditRow → Result (Option Text)
only_leaf (r ∷ []) = ok (some r.current_hash)
only_leaf _ = err audit_chain_branch

-- `findLeaf`, on the rows of the tenant and the one that the database gives as the newest
unfoldable pub find_leaf : Option AuditRow → List AuditRow → Result (Option Text)
unfolding leaves
find_leaf none rows = ok none
find_leaf (some newest) rows =
    if some_of (follows newest.current_hash) rows
    then only_leaf (leaves rows)
    else ok (some newest.current_hash)

abbrev pub of_tenant : ℕ → List AuditRow → List AuditRow
of_tenant tenant rows = keep (λ r. r.tenant_id == tenant) rows

module _ (digest : Text → Text) (iso : ℕ → Text) (stringify : Json → Text) where
  unfoldable pub new_row : ℕ → ℕ → AuditAppendInput → Option Text → AuditRow
  unfolding hash_input
  new_row new_id now input previous =
      let before = get_or_else input.before_state null in
      let after = get_or_else input.after_state null in
      record {
        id = new_id;
        tenant_id = input.tenant_id;
        event_type = input.event_type;
        entity_type = input.entity_type;
        entity_id = input.entity_id;
        actor_user_id = input.actor_user_id;
        operation = input.operation;
        payload = input.payload;
        before_state = before;
        after_state = after;
        previous_hash = previous;
        current_hash = digest (hash_input iso stringify previous input.payload before after now);
        hash_version = 1;
        created_at = now;
      }

  -- `appendInTx`; `newest` picks the newest row of the tenant.
  unfoldable pub append_in_tx :
      (List AuditRow → Option AuditRow)
      → ℕ
      → ℕ
      → AuditAppendInput
      → List AuditRow
      → Result AuditRow × List AuditRow
  unfolding find_leaf new_row
  append_in_tx newest new_id now input rows =
      let own = of_tenant input.tenant_id rows in
      elim (find_leaf (newest own) own) [
        | ok previous ↦ let row = new_row new_id now input previous in (ok row, row ∷ rows)
        | err e ↦ (err e, rows)
      ]

-- What `verifyChain` reports.
pub data AuditFault : Type 0 where
  no_genesis multiple_genesis disconnected : AuditFault
  hash_mismatch branch circular : ℕ → AuditFault

-- Where the walk ended: the rows visited, the last first, and the faults.
pub record WalkEnd : Type 0 where
  pub visited : List ℕ
  pub faults : List AuditFault

abbrev pub with_fault : Bool → AuditFault → Option WalkEnd → Option WalkEnd
with_fault true f e = e
with_fault false f none = none
with_fault false f (some e) = some (record e { faults = f ∷ e.faults })

abbrev pub is_genesis : AuditRow → Bool
is_genesis r = not (is_some r.previous_hash)

-- `visited.size !== allRecords.length`
abbrev pub check_visited : List AuditRow → Option WalkEnd → Option (List AuditFault)
check_visited rows none = none
check_visited rows (some e) =
    some (if length e.visited == length rows then e.faults else e.faults ++ disconnected ∷ [])

module _ (digest : Text → Text) (iso : ℕ → Text) (stringify : Json → Text)
    (rows : List AuditRow) where
  -- The `while` loop, one round for each unit of fuel.
  unfoldable pub walk_chain : ℕ → List ℕ → AuditRow → Option WalkEnd
  unfolding is_intact successors has
  walk_chain zero visited current = none
  walk_chain (suc fuel) visited current =
      with_fault (is_intact digest iso stringify current) (hash_mismatch current.id)
        (elim (successors rows current.current_hash) [
          | [] ↦ some (record { visited = visited; faults = [] })
          | s ∷ [] ↦ elim (has s.id visited) [
            | true ↦ some (record { visited = visited; faults = circular s.id ∷ [] })
            | false ↦ walk_chain fuel (s.id ∷ visited) s
          ]
          | s ∷ t ∷ more ↦ some (record { visited = visited; faults = branch current.id ∷ [] })
        ])

  abbrev pub from_genesis : List AuditRow → Option (List AuditFault)
  from_genesis [] = some (no_genesis ∷ [])
  from_genesis (g ∷ []) = check_visited rows (walk_chain (suc (length rows)) (g.id ∷ []) g)
  from_genesis (g ∷ h ∷ more) = some (multiple_genesis ∷ [])

  abbrev pub of_some_rows : List AuditRow → Option (List AuditFault)
  of_some_rows [] = some []
  of_some_rows (r ∷ rs) = from_genesis (keep is_genesis rows)

  -- `verifyChain`, on the rows of the tenant: the faults, none if the chain is valid
  unfoldable pub verify_chain : Option (List AuditFault)
  unfolding walk_chain
  verify_chain = of_some_rows rows
