-- ===== src/Content/History.antt =====
-- `HistoryVisibility` of eventcontent.go, a text of which four values are known, and its numbers.
pub mod Numbers
use gomatrixserverlib.Prelude.{ℕ, ◌||◌, String, ◌==◌, nat_eq, if◌then◌else◌}

abbrev pub world_readable : String
world_readable = "world_readable"

abbrev pub shared : String
shared = "shared"

abbrev pub invited : String
invited = "invited"

abbrev pub joined : String
joined = "joined"

unfoldable pub value : String → String
value h =
    if h == world_readable || h == shared
    then h
    else if h == invited || h == joined
    then h
    else shared

-- hisVisStringToIntMapping; a missing key gives 0.
unfoldable pub his_vis_string_to_int_mapping : String → ℕ
his_vis_string_to_int_mapping h =
    if h == world_readable
    then 1
    else if h == shared
    then 2
    else if h == invited
    then 3
    else if h == joined
    then 4
    else 0

unfoldable pub numeric_value : String → ℕ
unfolding his_vis_string_to_int_mapping value
numeric_value h = his_vis_string_to_int_mapping (value h)

-- hisVisIntToStringMapping, and "shared" for a number that is not in it.
unfoldable pub history_visibility_from_int : ℕ → String
history_visibility_from_int n =
    if nat_eq n 1
    then world_readable
    else if nat_eq n 2
    then shared
    else if nat_eq n 3
    then invited
    else if nat_eq n 4
    then joined
    else shared
