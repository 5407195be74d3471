-- ===== src/Dynamo.antt =====
-- The DynamoDB document client that backend/src/StreamMetadataService.ts calls
-- (@aws-sdk/lib-dynamodb, not in the repository): a parameter of the model, with its documented
-- behaviour as the named laws below. `Table` is the state of the table and of the network.
pub mod Memory
use video_thingy_rocks.Common.{ℕ, ◌≡◌, ◌≢◌, ◌⊎◌, Bool, true, false, Option, none, some}

-- How `docClient.send` ends: it returns, throws `ConditionalCheckFailedException`, or throws
-- something else.
pub data Reply : Type 0 where
  ok conditional_check_failed failed : Reply

-- An `UpdateCommand`: its `ConditionExpression` as a test of the stored item, and its
-- `UpdateExpression` as a function of it; the item may be missing.
pub record UpdateCommand (Item : Type 0) : Type 0 where
  pub key : ℕ
  pub condition : Option Item → Bool
  pub update : Option Item → Item

pub record DocumentClient (Item : Type 0) : Type 1 where
  pub Table : Type 0
  pub item : Table → ℕ → Option Item
  pub send_update : UpdateCommand Item → Table → Reply × Table
  pub send_put : ℕ → Item → Table → Reply × Table
  -- A consistent `GetCommand`; `none` if it throws.
  pub send_get : ℕ → Table → Option (Option Item) × Table

abbrev pub Untouched : {Item : Type 0} (db : DocumentClient Item) → db.Table → db.Table → ℕ → Type 0
Untouched db t t' k = db.item t' k ≡ db.item t k

abbrev pub Wrote :
    {Item : Type 0} (db : DocumentClient Item) → UpdateCommand Item → db.Table → db.Table → Type 0
Wrote db u t t' =
    (u.condition (db.item t u.key) ≡ true) × (db.item t' u.key ≡ some (u.update (db.item t u.key)))

-- A conditional write is atomic. A send that throws may have been stored all the same, since a
-- response can be lost; one that is refused found the condition false when it was last tried.
pub record Laws {Item : Type 0} (db : DocumentClient Item) : Type 0 where
  pub update_atomic :
      (u : UpdateCommand Item) (t : db.Table)
      → Untouched db t (db.send_update u t).1 u.key ⊎ Wrote db u t (db.send_update u t).1
  pub update_ok :
      (u : UpdateCommand Item) (t : db.Table)
      → (db.send_update u t).0 ≡ ok
      → Wrote db u t (db.send_update u t).1
  pub update_refused :
      (u : UpdateCommand Item) (t : db.Table)
      → (db.send_update u t).0 ≡ conditional_check_failed
      → u.condition (db.item (db.send_update u t).1 u.key) ≡ false
  pub update_others :
      (u : UpdateCommand Item) (t : db.Table) (k : ℕ)
      → k ≢ u.key
      → Untouched db t (db.send_update u t).1 k
  pub get_keeps : (k j : ℕ) (t : db.Table) → Untouched db t (db.send_get k t).1 j
  pub get_reads :
      (k : ℕ) (t : db.Table) (o : Option Item) → (db.send_get k t).0 ≡ some o → o ≡ db.item t k
