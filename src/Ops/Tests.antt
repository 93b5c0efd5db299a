-- ===== src/Ops/Tests.antt =====
-- The dashboard's guard at concrete inputs, with credentials that are sent as they are.
use new_specter.Ops.BasicAuth.{unauthorised, basic_auth}
use new_specter.Common.{String, ◌≡◌, refl, some}

abbrev plain : String → String
plain t = t

-- The right password is refused, since it has a colon.
locked_out :
    basic_auth plain (some "ops") (some "se:cret") (some "Basic ops:se:cret") ≡ unauthorised
unfolding basic_auth
locked_out = refl
