-- ===== src/Core/Readiness/Context/Bind.antt =====
-- The subjects of mutations, and the end of an invocation (packages/core/src/readiness.ts).
use map_data_aggregation_enh.Base.{
  ℕ, suc, String, false, not, Result, ok, refuse, is_some, is_empty, lookup, set, delete, ◌>>◌,
  ◌>>=◌,
}
use map_data_aggregation_enh.Base.Numbers.{Num, bad_natural}
use map_data_aggregation_enh.Core.Validation.Formats.{is_sha256}
use map_data_aggregation_enh.Core.Readiness.Context.{
  ContextError, cannot_bind, no_staged_artifact, bad_proposal_digest, bad_mutation_count,
  OutputSubject, StateSubject, World, Context, invocation_snapshot,
}

-- The arguments; an invocation is given by its reference.
pub record BindOutputInput : Type 0 where
  pub invocation : ℕ
  pub output_port : String
  pub staged_artifact_handle : String
  pub authoritative_record_count : Num

pub record BindStateInput : Type 0 where
  pub invocation : ℕ
  pub proposal_digest : String
  pub authoritative_record_count : Num

abbrev pub without_invocation : ℕ → World → World
without_invocation invocation w = record {
  stage_invocation_sequence = w.stage_invocation_sequence;
  mutation_subject_sequence = w.mutation_subject_sequence;
  stage_invocations = delete invocation w.stage_invocations;
  output_mutations = w.output_mutations;
  state_mutations = w.state_mutations;
  used_stage_run_ids = w.used_stage_run_ids;
}

abbrev pub with_output : Context → BindOutputInput → World → World
with_output c i w = record {
  stage_invocation_sequence = w.stage_invocation_sequence;
  mutation_subject_sequence = suc w.mutation_subject_sequence;
  stage_invocations = w.stage_invocations;
  output_mutations =
      set (suc w.mutation_subject_sequence)
        (record {
          owner = c.reference;
          invocation = i.invocation;
          authoritative_record_count = i.authoritative_record_count;
          consumed = false;
          detail = record {
            output_port = i.output_port;
            staged_artifact_handle = i.staged_artifact_handle;
          };
        })
        w.output_mutations;
  state_mutations = w.state_mutations;
  used_stage_run_ids = w.used_stage_run_ids;
}

abbrev pub with_state : Context → BindStateInput → World → World
with_state c i w = record {
  stage_invocation_sequence = w.stage_invocation_sequence;
  mutation_subject_sequence = suc w.mutation_subject_sequence;
  stage_invocations = w.stage_invocations;
  output_mutations = w.output_mutations;
  state_mutations =
      set (suc w.mutation_subject_sequence)
        (record {
          owner = c.reference;
          invocation = i.invocation;
          authoritative_record_count = i.authoritative_record_count;
          consumed = false;
          detail = i.proposal_digest;
        })
        w.state_mutations;
  used_stage_run_ids = w.used_stage_run_ids;
}

module _ (c : Context) where
  unfoldable pub close_stage_invocation : ℕ → World → Result ContextError World
  close_stage_invocation invocation w = do
    snapshot ← invocation_snapshot c w invocation
    ok (without_invocation invocation w)

  unfoldable pub bind_output_mutation_subject :
      BindOutputInput → World → Result ContextError (World × OutputSubject)
  bind_output_mutation_subject i w = do
    snapshot ← invocation_snapshot c w i.invocation
    refuse (not (is_some (lookup i.output_port snapshot.manifest.outputs)))
        (cannot_bind i.output_port)
    refuse (is_empty i.staged_artifact_handle) no_staged_artifact
    refuse (bad_natural i.authoritative_record_count) bad_mutation_count
    ok (
      with_output c i w,
      record { reference = suc w.mutation_subject_sequence; output_port = i.output_port },
    )

  unfoldable pub bind_state_mutation_subject :
      BindStateInput → World → Result ContextError (World × StateSubject)
  bind_state_mutation_subject i w = do
    snapshot ← invocation_snapshot c w i.invocation
    refuse (not (is_sha256 i.proposal_digest)) bad_proposal_digest
    refuse (bad_natural i.authoritative_record_count) bad_mutation_count
    ok (
      with_state c i w,
      record { reference = suc w.mutation_subject_sequence; proposal_digest = i.proposal_digest },
    )
