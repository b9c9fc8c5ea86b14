-- ===== src/SettingsPage/Banner.antt =====
-- web/static/js/settings.js: `showMessage` and the timer that clears its message. Timers are
-- numbered in the order in which `setTimeout` hands them out; `live` are those that have neither
-- fired nor been cleared.
pub mod Timers
use huntarr.Base.{ℕ, suc, String, List, [], ◌∷◌, Option, none, some, if◌then◌else◌, ◌==◌, contains}

pub record Banner : Type 0 where
  pub message : String
  pub message_type : String
  pub message_timer : Option ℕ
  pub live : List ℕ
  pub next_timer : ℕ

abbrev pub initial_banner : Banner
initial_banner = record {
  message = "";
  message_type = "";
  message_timer = none;
  live = [];
  next_timer = 1;
}

unfoldable pub remove_timer : ℕ → List ℕ → List ℕ
remove_timer t [] = []
remove_timer t (u ∷ us) = let rest = remove_timer t us in if u == t then rest else u ∷ rest

-- `clearTimeout` of an id that may be undefined.
unfoldable pub clear_timeout : Option ℕ → List ℕ → List ℕ
unfolding remove_timer
clear_timeout none live = live
clear_timeout (some t) live = remove_timer t live

unfoldable pub show_message : String → String → Banner → Banner
unfolding clear_timeout
show_message msg type b = record b {
  message = msg;
  message_type = type;
  message_timer = some b.next_timer;
  live = b.next_timer ∷ clear_timeout b.message_timer b.live;
  next_timer = suc b.next_timer;
}

-- The callback of a timer runs only while the timer is live.
unfoldable pub timer_fires : ℕ → Banner → Banner
unfolding remove_timer
timer_fires t b =
    if contains b.live t then record b { message = ""; live = remove_timer t b.live } else b

-- `this.message = ''`
unfoldable pub clear_message : Banner → Banner
clear_message b = record b { message = "" }

unfoldable pub destroy : Banner → Banner
unfolding clear_timeout
destroy b = record b { live = clear_timeout b.message_timer b.live }
