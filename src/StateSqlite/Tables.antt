-- ===== src/StateSqlite/Tables.antt =====
-- The three tables (packages/state-sqlite/src/index.ts) and the statements that read them.
use map_data_aggregation_enh.Base.{
  ℕ, String, Bool, true, false, ◌&&◌, ◌||◌, Option, List, [], ◌∷◌, ltb, eqb, filter, find, length,
  ◌==◌, if◌then◌else◌,
}
use map_data_aggregation_enh.Base.Numbers.{Num}
use map_data_aggregation_enh.Core.Types.{PipelineMode}
use map_data_aggregation_enh.Core.Identity.{Json}
use map_data_aggregation_enh.Base.TextOrder.{text_lt}

pub data Status : Type 0 where
  running succeeded failed : Status

abbrev pub is_running : Status → Bool
is_running running = true
is_running _ = false

abbrev pub is_succeeded : Status → Bool
is_succeeded succeeded = true
is_succeeded _ = false

pub record RunRow : Type 0 where
  pub run_id : String
  pub profile : String
  pub pipeline : String
  pub pipeline_version : Num
  pub partition : String
  pub mode : PipelineMode
  pub status : Status
  pub started_at : String
  pub finished_at : Option String
  pub error : Option String

pub record StageRow : Type 0 where
  pub run_id : String
  pub stage_id : String
  pub attempt : ℕ
  pub status : Status
  pub started_at : String
  pub finished_at : Option String
  pub outputs : Json
  pub error : Option String

pub data CheckpointMode : Type 0 where
  for_preview for_apply : CheckpointMode

abbrev pub same_mode : CheckpointMode → CheckpointMode → Bool
same_mode for_preview for_preview = true
same_mode for_apply for_apply = true
same_mode _ _ = false

pub record CheckpointRow : Type 0 where
  pub checkpoint_key : String
  pub profile : String
  pub mode : CheckpointMode
  pub value : Json
  pub updated_at : String

pub record Db : Type 0 where
  pub runs : List RunRow
  pub attempts : List StageRow
  pub checkpoints : List CheckpointRow

-- The tables that the constructor creates.
abbrev pub empty_db : Db
empty_db = record { runs = []; attempts = []; checkpoints = [] }

abbrev pub has_run_id : String → RunRow → Bool
has_run_id id r = r.run_id == id

-- SELECT … FROM runs WHERE run_id = ?
abbrev pub select_run : String → List RunRow → Option RunRow
select_run id runs = find (has_run_id id) runs

abbrev pub of_stage : String → String → StageRow → Bool
of_stage run stage a = a.run_id == run && a.stage_id == stage

abbrev pub has_key : String → String → ℕ → StageRow → Bool
has_key run stage n a = of_stage run stage a && eqb a.attempt n

abbrev pub of_running : (StageRow → Bool) → StageRow → Bool
of_running p a = p a && is_running a.status

-- SELECT COALESCE(MAX(attempt), 0) … WHERE run_id = ? AND stage_id = ?
abbrev pub max_attempt : String → String → List StageRow → ℕ
max_attempt run stage [] = 0
max_attempt run stage (a ∷ rest) =
    let m = max_attempt run stage rest in
    if of_stage run stage a then (if ltb m a.attempt then a.attempt else m) else m

-- The join of `completeRun`: the rows of the run whose attempt is the greatest of their stage.
abbrev pub is_latest : String → List StageRow → StageRow → Bool
is_latest run rows a = a.run_id == run && eqb a.attempt (max_attempt run a.stage_id rows)

-- UPDATE … SET … WHERE …, and how many rows it changed.
abbrev pub update {ℓ} : {R : Type ℓ} → (R → Bool) → (R → R) → List R → List R
update where_ set [] = []
update where_ set (r ∷ rows) = (if where_ r then set r else r) ∷ update where_ set rows

abbrev pub changes {ℓ} : {R : Type ℓ} → (R → Bool) → List R → ℕ
changes where_ rows = length (filter where_ rows)

-- ORDER BY stage_id, attempt
abbrev pub row_lt : StageRow → StageRow → Bool
row_lt a b = text_lt a.stage_id b.stage_id || a.stage_id == b.stage_id && ltb a.attempt b.attempt

unfoldable pub insert_ordered : StageRow → List StageRow → List StageRow
insert_ordered a [] = a ∷ []
insert_ordered a (b ∷ rows) =
    let rest = insert_ordered a rows in if row_lt b a then b ∷ rest else a ∷ b ∷ rows

unfoldable pub order_rows : List StageRow → List StageRow
order_rows [] = []
order_rows (a ∷ rows) = insert_ordered a (order_rows rows)
