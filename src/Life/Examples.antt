-- ===== src/Life/Examples.antt =====
-- Tests and witnesses of a whole request.
use coraza_nginx.Common.{◌≡◌, ◌⊎◌, refl, true, List, [], ◌∷◌}
use coraza_nginx.Runtime.{count, is_process_logging}
use coraza_nginx.Samples.{creating, arriving, incoming, part}
use coraza_nginx.HeaderFilter.Examples.{head}
use coraza_nginx.Life.{Event, rewrite, pre_access, log, header, body, run, whole_request}
use coraza_nginx.Life.Inert.{account}
use coraza_nginx.Life.Sound.{Finished}
use coraza_nginx.Life.Whole.{IsNew, whole_request-Finished}

-- The phases of a request, and its response.
abbrev served : List Event
served =
    rewrite incoming
    ∷ pre_access
    ∷ rewrite incoming
    ∷ header head
    ∷ body (part true ∷ [])
    ∷ log
    ∷ []

pub arriving-IsNew : IsNew arriving
arriving-IsNew = record { no_calls = refl; no_context = refl; no_cleanups = refl }

whole_request-Finished_example :
    Finished (account creating (whole_request creating served arriving))
    × (((run creating served arriving).cleanups ≡ 0)
        ⊎ (count is_process_logging (whole_request creating served arriving).trace ≡ 1))
whole_request-Finished_example = whole_request-Finished creating served arriving arriving-IsNew
