-- ===== src/Policy/Tests.antt =====
-- Policies at concrete values.
use ontheia.Prelude.{◌≡◌, refl, true, false, Option, none, some, [], ◌∷◌, Text, codes, trim}
use ontheia.ChainRunner.Values.{undefined, bool, object}
use ontheia.Policy.{MemoryPolicy, to_stored_policy, load_memory_policy}
use ontheia.Policy.Roundtrip.{IsNormal}
use ontheia.Policy.Merge.{load-IsOverridden, IsOverridden}

-- A number is clamped to its own text here.
abbrev keep : Text → Text
keep n = n

abbrev finite : Text → Option Text
finite n = some n

abbrev agent_policy : MemoryPolicy
agent_policy = record {
  read_namespaces = some (codes "vector.user.u" ∷ codes "vector.global" ∷ []);
  tool_read_namespaces = none;
  auto_read_enabled = bool false;
  write_namespace = some (codes "vector.user.u");
  allow_write = bool true;
  top_k = some (codes "5");
  min_score = some (codes "0.2");
  relative_cutoff = none;
  allowed_write_namespaces = none;
  allow_tool_write = undefined;
  allow_tool_delete = bool false;
}

abbrev task_policy : MemoryPolicy
task_policy = record {
  read_namespaces = none;
  tool_read_namespaces = none;
  auto_read_enabled = bool true;
  write_namespace = none;
  allow_write = undefined;
  top_k = none;
  min_score = none;
  relative_cutoff = none;
  allowed_write_namespaces = none;
  allow_tool_write = undefined;
  allow_tool_delete = undefined;
}

agent_policy-IsNormal : IsNormal keep finite agent_policy
unfolding trim
agent_policy-IsNormal = record {
  read_list = (refl, (refl, tt));
  tool_read_list = tt;
  auto_read_flag = tt;
  write_text = refl;
  allow_write_flag = tt;
  top_k_range = refl;
  min_score_range = refl;
  cutoff_range = tt;
  allowed_write_list = tt;
  tool_write_flag = tt;
  tool_delete_flag = tt;
}

task_policy-IsNormal : IsNormal keep finite task_policy
task_policy-IsNormal = record {
  read_list = tt;
  tool_read_list = tt;
  auto_read_flag = tt;
  write_text = tt;
  allow_write_flag = tt;
  top_k_range = tt;
  min_score_range = tt;
  cutoff_range = tt;
  allowed_write_list = tt;
  tool_write_flag = tt;
  tool_delete_flag = tt;
}

load-IsOverridden_example :
    (p : MemoryPolicy) × (load_memory_policy keep finite
        (some (object (to_stored_policy agent_policy)))
        (some (object (to_stored_policy task_policy)))
      ≡ some p)
    × IsOverridden agent_policy task_policy p
load-IsOverridden_example =
    load-IsOverridden keep finite agent_policy task_policy agent_policy-IsNormal
      task_policy-IsNormal
