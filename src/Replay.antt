-- ===== src/Replay.antt =====
-- `ReplayFilter` of crates/hydr-core/src/obfuscation.rs. Its lock makes `observe` one step. The set of
-- seen numbers is a list without repetitions; `window * 2` does not wrap at the window in use, 2 ^ 16.
pub mod History
pub mod Memory
use hydr.Base.{ℕ, ◌+◌, ◌-◌, ◌*◌, List, [], ◌∷◌, Bool, true, false, length}
use hydr.Base.{ltb, leb, if◌then◌else◌}
use hydr.Base.Sets.{contains, nat_eq}

pub record Filter : Type 0 where
  pub last : ℕ
  pub floor : ℕ
  pub seen : List ℕ
  pub window : ℕ

unfoldable pub new : ℕ → Filter
new window = record { last = 0; floor = 0; seen = []; window = window }

-- `seen.retain(|x| *x >= min)`
unfoldable pub retain_from : ℕ → List ℕ → List ℕ
retain_from min [] = []
retain_from min (x ∷ xs) = let rest = retain_from min xs in if leb min x then x ∷ rest else rest

-- `if seq > g.last { g.last = seq; g.floor = … }`
unfoldable pub advance : Filter → ℕ → Filter
advance g seq = if ltb g.last seq then record g { last = seq; floor = seq - g.window } else g

-- The clean-up once the set is large.
unfoldable pub trim : Filter → Filter
trim g =
    if ltb (g.window * 2) (length g.seen) then record g { seen = retain_from g.floor g.seen } else g

unfoldable pub observe : Filter → ℕ → Filter × Bool
observe g seq =
    if ltb seq g.floor
    then (g, false)
    else if contains seq g.seen
    then (g, false)
    else (trim (advance (record g { seen = seq ∷ g.seen }) seq), true)

-- The answers to a sequence of numbers.
unfoldable pub observe_all : Filter → List ℕ → Filter × List Bool
observe_all g [] = (g, [])
observe_all g (seq ∷ seqs) =
    let (g', fresh) = observe g seq in
    let (g'', answers) = observe_all g' seqs in (g'', fresh ∷ answers)
