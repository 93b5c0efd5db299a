-- ===== src/Web/Tests/Samples.antt =====
-- Instances of what the models take `JSON` to be, for scenarios and for billing intents.
use new_specter.Web.Tests.Formats.{
  Format, text_format, nat_format, pair_format, mapped, put_list, put_items, list_format,
}
use Prim.Native.Char.{code}
use new_specter.Web.Scenarios.{Input, text, flag, Scenario, Parsed, list, ScenarioJson, load_raw}
use new_specter.Web.Scenarios.Laws.{IsFaithful}
use new_specter.Web.Billing.{
  BillingAction, trial, buy, BillingIntent, IntentReading, IntentJson, checked, read_raw,
}
use new_specter.Web.Billing.Once
use new_specter.Common.{
  ℕ, zero, suc, String, ◌≡◌, refl, Bool, true, false, Option, none, some, List, [], ◌∷◌, ◌==◌,
  if◌then◌else◌, ◌>>=◌,
}

abbrev to_list : {A : Type 0} → Option A → List A
to_list none = []
to_list (some a) = a ∷ []

abbrev from_list : {A : Type 0} → List A → Option A
from_list [] = none
from_list (a ∷ xs) = some a

from-to_list : {A : Type 0} (o : Option A) → from_list (to_list o) ≡ o
from-to_list none = refl
from-to_list (some a) = refl

option_format : {A : Type 0} → Format A → Format (Option A)
option_format F = mapped (list_format F) to_list from_list from-to_list

abbrev from_input : Input → String × ℕ
from_input (text s) = (s, 2)
from_input (flag b) = ("", if b then 1 else 0)

abbrev to_input : String × ℕ → Input
to_input (s, zero) = flag false
to_input (s, suc zero) = flag true
to_input (s, suc (suc n)) = text s

to-from_input : (i : Input) → to_input (from_input i) ≡ i
to-from_input (text s) = refl
to-from_input (flag true) = refl
to-from_input (flag false) = refl

input_format : Format Input
input_format = mapped (pair_format text_format nat_format) from_input to_input to-from_input

abbrev Parts : Type 0
Parts = String × (String × (Option String × (List (String × Input) × (List (String × ℕ) × ℕ))))

parts_format : Format Parts
parts_format = pair_format text_format (
    pair_format text_format (
      pair_format (option_format text_format) (
        pair_format (list_format (pair_format text_format input_format))
          (pair_format (list_format (pair_format text_format nat_format)) nat_format))))

abbrev to_parts : Scenario ℕ → Parts
to_parts x = (x.id, (x.name, (x.currency, (x.inputs, (x.results, x.saved_at)))))

abbrev from_parts : Parts → Scenario ℕ
from_parts p = record {
  id = p.0;
  name = p.1.0;
  currency = p.1.1.0;
  inputs = p.1.1.1.0;
  results = p.1.1.1.1.0;
  saved_at = p.1.1.1.1.1;
}

pub scenarios_format : Format (List (Scenario ℕ))
scenarios_format = list_format (mapped parts_format to_parts from_parts λ x. refl)

-- The text begins with a bracket, so it is not empty; `[]` is read as the empty list.
write_sample : List (Scenario ℕ) → String
write_sample xs = String.◌∷◌ "[" (scenarios_format.put xs "")

abbrev read_body : String → Option (Parsed ℕ)
read_body t = scenarios_format.get t >>= λ r. some (list r.0)

abbrev is_bracket : String → Bool
is_bracket String.[] = false
is_bracket (String.◌∷◌ c s) = code c == b']'

read_sample : String → Option (Parsed ℕ)
read_sample String.[] = none
read_sample (String.◌∷◌ c t) = if is_bracket t then some (list []) else read_body t

unfoldable pub sample_json : ScenarioJson ℕ
unfolding write_sample read_sample
sample_json = record { stringify = write_sample; parse = read_sample }

not_bracket : (xs : List (Scenario ℕ)) → is_bracket (scenarios_format.put xs "") ≡ false
unfolding scenarios_format put_list list_format put_items
not_bracket [] = refl
not_bracket (x ∷ xs) = refl

pub sample_json-IsFaithful : IsFaithful sample_json
unfolding write_sample read_sample load_raw sample_json
sample_json-IsFaithful xs = rw (not_bracket xs, scenarios_format.law xs "") refl

pub sample_json-empty : sample_json.parse "[]" ≡ some (list [])
unfolding read_sample sample_json
sample_json-empty = refl

abbrev IntentParts : Type 0
IntentParts = ℕ × (String × (String × ℕ))

pub intent_format : Format IntentParts
intent_format =
    pair_format nat_format (pair_format text_format (pair_format text_format nat_format))

abbrev action_number : BillingAction → ℕ
action_number trial = 0
action_number buy = 1

abbrev number_action : ℕ → Option BillingAction
number_action zero = some trial
number_action (suc zero) = some buy
number_action (suc (suc n)) = none

write_intent : BillingIntent → String
write_intent i =
    String.◌∷◌ "{" (intent_format.put (action_number i.action, (i.plan, (i.cadence, i.ts))) "")

abbrev reading_of : IntentParts → IntentReading
reading_of p = record {
  action = number_action p.0;
  plan = p.1.0;
  cadence = p.1.1.0;
  ts = some p.1.1.1;
}

read_intent_text : String → Option IntentReading
read_intent_text String.[] = none
read_intent_text (String.◌∷◌ c t) = intent_format.get t >>= λ r. some (reading_of r.0)

unfoldable pub sample_intents : IntentJson
unfolding write_intent read_intent_text
sample_intents = record { stringify = write_intent; parse = read_intent_text }

checked_again :
    (i : BillingIntent)
    → checked (reading_of (action_number i.action, (i.plan, (i.cadence, i.ts)))) ≡ some i
unfolding checked
checked_again i = actions i.action
  where
    actions :
        (a : BillingAction)
        → checked (reading_of (action_number a, (i.plan, (i.cadence, i.ts))))
          ≡ some record { action = a; plan = i.plan; cadence = i.cadence; ts = i.ts }
    actions trial = refl
    actions buy = refl

pub sample_intents-IsFaithful : Once.IsFaithful sample_intents
unfolding write_intent read_intent_text read_raw sample_intents
sample_intents-IsFaithful i =
    rw (intent_format.law (action_number i.action, (i.plan, (i.cadence, i.ts))) "")
      (checked_again i)
