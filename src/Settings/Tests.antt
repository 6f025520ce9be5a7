-- ===== src/Settings/Tests.antt =====
-- Examples of the theorems on the settings of host/src/runtime/system-flags.ts.
use ontheia.Prelude.{ℕ, ◌≡◌, refl, none, [], ◌∷◌, codes}
use ontheia.Settings.{Answer, rows, positive, query_failed, get_system_number}
use ontheia.Settings.Freshness.{number_reread}

abbrev stored_50 : Answer ℕ
stored_50 = rows (positive 50 ∷ [])

abbrev failed : Answer ℕ
failed = query_failed

number_reread_example :
    (get_system_number failed
      (get_system_number stored_50 (λ k. none) (codes "n") 7 1000).1
      (codes "n")
      9
      2000).0
    ≡ 50
unfolding get_system_number
number_reread_example = number_reread stored_50 failed (λ k. none) (codes "n") 7 9 1000 2000 refl
