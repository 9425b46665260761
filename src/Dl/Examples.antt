-- ===== src/Dl/Examples.antt =====
-- Tests and witnesses of the loading of libcoraza.
use coraza_nginx.Common.{ℕ, ◌+◌, ◌≡◌, refl, pos, ngx_ok, none, some}
use coraza_nginx.Dl.{
  Symbol, Library, Loader, place, table, bind_all, bind, check_version, load, dl_open, wrapper,
}
use coraza_nginx.Dl.Loaded.{Unloaded}
use coraza_nginx.Dl.Opens.{Opens, dl_open-Opens, here, next, try_open, wrapper-runs}

-- Version 1.7.2, whose symbols stand one behind the other.
abbrev pub current : Library
current = record { file = some 3; sym = λ h x. some (place x + 100); version = pos 10702 }

-- Version 1.6.0.
abbrev old : Library
old = record current { version = pos 10600 }

abbrev pub zeroed : Loader
zeroed = record { handle = none; pointers = λ x. none; opens = 0; closes = 0 }

pub zeroed-Unloaded : Unloaded zeroed
zeroed-Unloaded = record { is_shut = refl; balance = refl }

current_opens : (dl_open current (dl_open old zeroed).1).0 ≡ ngx_ok
unfolding dl_open load check_version bind_all bind table place
current_opens = refl

dl_open-Opens_example : Opens current (dl_open current zeroed)
dl_open-Opens_example = dl_open-Opens current zeroed zeroed-Unloaded

-- The old library is tried first.
wrapper-runs_example :
    (address : ℕ) × (wrapper
        (λ a b. a + b)
        Symbol.new_waf
        (dl_open current (dl_open old zeroed).1).1
        7
      ≡ some (address + 7))
wrapper-runs_example =
    wrapper-runs current Symbol.new_waf (λ a b. a + b) 7 zeroed-Unloaded (next here (try_open old))
      current_opens
