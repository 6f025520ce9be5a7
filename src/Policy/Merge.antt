-- ===== src/Policy/Merge.antt =====
-- host/src/routes/policy-utils.ts: what `loadMemoryPolicy` gives for policies that were stored before.
use ontheia.Prelude.{◌≡◌, refl, ap, ◌∙◌, Option, none, some, Text}
use ontheia.ChainRunner.Values.{Value, undefined, null, bool, number, text, array, object}
use ontheia.Policy.{
  MemoryPolicy, empty_policy, or_unset, or_nullish, to_stored_policy, merge_policies, add_policy,
  load_memory_policy,
}
use ontheia.Policy.Roundtrip.{IsFlag, IsNormal, parse-to_stored}

kept_or_unset : {A : Type 0} (o : Option A) → or_unset o none ≡ o
kept_or_unset none = refl
kept_or_unset (some a) = refl

kept_or_nullish : (v : Value) → IsFlag v → or_nullish v undefined ≡ v
kept_or_nullish undefined h = refl
kept_or_nullish (bool b) h = refl
kept_or_nullish null h = absurd h
kept_or_nullish (number t) h = absurd h
kept_or_nullish (text t) h = absurd h
kept_or_nullish (array vs) h = absurd h
kept_or_nullish (object o) h = absurd h

-- A field that is set in the task is the task's, any other is the agent's.
abbrev pub Overrides : {A : Type 0} → Option A → Option A → Option A → Type 0
Overrides (some t) agent p = p ≡ some t
Overrides none agent p = p ≡ agent

abbrev pub OverridesFlag : Value → Value → Value → Type 0
OverridesFlag undefined agent p = p ≡ agent
OverridesFlag null agent p = p ≡ agent
OverridesFlag (bool t) agent p = p ≡ bool t
OverridesFlag (number t) agent p = p ≡ number t
OverridesFlag (text t) agent p = p ≡ text t
OverridesFlag (array t) agent p = p ≡ array t
OverridesFlag (object t) agent p = p ≡ object t

-- `p` has the fields of the agent with those that the task sets in their place.
pub record IsOverridden (agent task p : MemoryPolicy) : Type 0 where
  pub reads : Overrides task.read_namespaces agent.read_namespaces p.read_namespaces
  pub tool_reads :
      Overrides task.tool_read_namespaces agent.tool_read_namespaces p.tool_read_namespaces
  pub auto_reads : OverridesFlag task.auto_read_enabled agent.auto_read_enabled p.auto_read_enabled
  pub writes : Overrides task.write_namespace agent.write_namespace p.write_namespace
  pub may_write : OverridesFlag task.allow_write agent.allow_write p.allow_write
  pub tops : Overrides task.top_k agent.top_k p.top_k
  pub floors : Overrides task.min_score agent.min_score p.min_score
  pub cutoffs : Overrides task.relative_cutoff agent.relative_cutoff p.relative_cutoff
  pub allowed_writes :
      Overrides task.allowed_write_namespaces agent.allowed_write_namespaces
        p.allowed_write_namespaces
  pub tools_write : OverridesFlag task.allow_tool_write agent.allow_tool_write p.allow_tool_write
  pub tools_delete :
      OverridesFlag task.allow_tool_delete agent.allow_tool_delete p.allow_tool_delete

or_unset-Overrides : {A : Type 0} (t a : Option A) → Overrides t a (or_unset t a)
or_unset-Overrides none a = refl
or_unset-Overrides (some t) a = refl

or_nullish-OverridesFlag : (t a : Value) → OverridesFlag t a (or_nullish t a)
or_nullish-OverridesFlag undefined a = refl
or_nullish-OverridesFlag null a = refl
or_nullish-OverridesFlag (bool t) a = refl
or_nullish-OverridesFlag (number t) a = refl
or_nullish-OverridesFlag (text t) a = refl
or_nullish-OverridesFlag (array t) a = refl
or_nullish-OverridesFlag (object t) a = refl

merge_policies-IsOverridden :
    (agent task : MemoryPolicy) → IsOverridden agent task (merge_policies agent task)
unfolding merge_policies
merge_policies-IsOverridden agent task = record {
  reads = or_unset-Overrides task.read_namespaces agent.read_namespaces;
  tool_reads = or_unset-Overrides task.tool_read_namespaces agent.tool_read_namespaces;
  auto_reads = or_nullish-OverridesFlag task.auto_read_enabled agent.auto_read_enabled;
  writes = or_unset-Overrides task.write_namespace agent.write_namespace;
  may_write = or_nullish-OverridesFlag task.allow_write agent.allow_write;
  tops = or_unset-Overrides task.top_k agent.top_k;
  floors = or_unset-Overrides task.min_score agent.min_score;
  cutoffs = or_unset-Overrides task.relative_cutoff agent.relative_cutoff;
  allowed_writes = or_unset-Overrides task.allowed_write_namespaces agent.allowed_write_namespaces;
  tools_write = or_nullish-OverridesFlag task.allow_tool_write agent.allow_tool_write;
  tools_delete = or_nullish-OverridesFlag task.allow_tool_delete agent.allow_tool_delete;
}

module _ (clamp_top_k : Text → Text) (clamp_unit : Text → Option Text) where
  merge-empty_policy :
      (p : MemoryPolicy) → IsNormal clamp_top_k clamp_unit p → merge_policies empty_policy p ≡ p
  unfolding merge_policies
  merge-empty_policy p n = λ i. record {
    read_namespaces = kept_or_unset p.read_namespaces i;
    tool_read_namespaces = kept_or_unset p.tool_read_namespaces i;
    auto_read_enabled = kept_or_nullish p.auto_read_enabled n.auto_read_flag i;
    write_namespace = kept_or_unset p.write_namespace i;
    allow_write = kept_or_nullish p.allow_write n.allow_write_flag i;
    top_k = kept_or_unset p.top_k i;
    min_score = kept_or_unset p.min_score i;
    relative_cutoff = kept_or_unset p.relative_cutoff i;
    allowed_write_namespaces = kept_or_unset p.allowed_write_namespaces i;
    allow_tool_write = kept_or_nullish p.allow_tool_write n.tool_write_flag i;
    allow_tool_delete = kept_or_nullish p.allow_tool_delete n.tool_delete_flag i;
  }

  add-stored :
      (policy p : MemoryPolicy)
      → IsNormal clamp_top_k clamp_unit p
      → add_policy clamp_top_k clamp_unit policy (some (object (to_stored_policy p)))
        ≡ some (merge_policies policy p)
  unfolding add_policy
  add-stored policy p n =
      ap (λ o. elim o [ none ↦ none | some q ↦ some (merge_policies policy q) ])
        (parse-to_stored clamp_top_k clamp_unit p n)

  load-merge_policies :
      (agent task : MemoryPolicy)
      → IsNormal clamp_top_k clamp_unit agent
      → IsNormal clamp_top_k clamp_unit task
      → load_memory_policy clamp_top_k clamp_unit
          (some (object (to_stored_policy agent)))
          (some (object (to_stored_policy task)))
        ≡ some (merge_policies agent task)
  unfolding load_memory_policy
  load-merge_policies agent task m n =
      ap
        (λ o. elim o [
          | none ↦ none
          | some q ↦ add_policy clamp_top_k clamp_unit q (some (object (to_stored_policy task)))
        ])
        (add-stored empty_policy agent m)
      ∙ (ap (λ q. add_policy clamp_top_k clamp_unit q (some (object (to_stored_policy task))))
            (merge-empty_policy agent m)
          ∙ add-stored agent task n)

  -- For an agent and a task whose stored policies are normal, a policy is loaded, each field of which is the task's
  -- where the task sets it, and the agent's where it does not.
  pub load-IsOverridden :
      (agent task : MemoryPolicy)
      → IsNormal clamp_top_k clamp_unit agent
      → IsNormal clamp_top_k clamp_unit task
      → (p : MemoryPolicy) × (load_memory_policy clamp_top_k clamp_unit
            (some (object (to_stored_policy agent)))
            (some (object (to_stored_policy task)))
          ≡ some p)
        × IsOverridden agent task p
  load-IsOverridden agent task m n = (
    merge_policies agent task,
    load-merge_policies agent task m n,
    merge_policies-IsOverridden agent task,
  )
