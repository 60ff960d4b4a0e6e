-- ===== src/Tests/Preferences.antt =====
-- The theorem on preferences at concrete tables.
use tucano.Prelude.{◌≡◌, true, false, [], ◌∷◌, ◌++◌, map, filter}
use tucano.Models.{Channel, push, whatsapp, email, NotifyTask}
use tucano.Notifications.{dispatch_notification}
use tucano.Notifications.Settings.{save_preferences, is_asked, save_preferences-dispatch}
use tucano.Tests.Sample.{no_mail}

abbrev told : Channel → NotifyTask
told c = record { user = 1; channel = c; event_type = "e"; title = "t"; body = "b" }

save_preferences-dispatch_example :
    (dispatch_notification 1 "e" "t" "b" true (save_preferences 1 true false false no_mail)).tasks
    ≡ no_mail.tasks
      ++ map told (filter (is_asked true true false false) (push ∷ whatsapp ∷ email ∷ []))
save_preferences-dispatch_example =
    save_preferences-dispatch 1 true false false "e" "t" "b" true no_mail
