-- ===== src/Samples/Aliases.antt =====
-- An alias of two indices, and what the theorems say of it.
use osmem.Prelude.{String, true, false, none, some, [], ◌∷◌, ◌≡◌, refl, sym, subst, inl, inr}
use osmem.Prelude.Dict.{Dict, string_keys, lookup}
use osmem.Error.{ok}
use osmem.Alias.{AliasedIndex, resolve_write_index, alias_targets}
use osmem.Alias.Targets.{Stored}
use osmem.Alias.Choice.{Designated, Reason, resolve_write_index-Reason, resolve_write_index-marked}

abbrev first_log : AliasedIndex
first_log = record {
  name = "logs-1";
  aliases = ("logs", record { is_write_index = none }) ∷ [];
  state_closed = false;
}

abbrev second_log : AliasedIndex
second_log = record {
  name = "logs-2";
  aliases = ("logs", record { is_write_index = some true }) ∷ [];
  state_closed = false;
}

abbrev logs : Dict String AliasedIndex
logs = ("logs-2", second_log) ∷ ("logs-1", first_log) ∷ []

no_such_index : lookup "logs" logs ≡ none
unfolding lookup
no_such_index = refl

second-Designated : Designated "logs" second_log
unfolding lookup
second-Designated = refl

first-not-Designated : ¬ Designated "logs" first_log
unfolding lookup
first-not-Designated h = cc

only_second : (u : AliasedIndex) → Stored u logs → Designated "logs" u → second_log ≡ u
only_second u (inl q) d = q
only_second u (inr (inl q)) d = absurd (first-not-Designated (subst (Designated "logs") (sym q) d))
only_second u (inr (inr r)) d = absurd r

second_chosen : resolve_write_index logs "logs" ≡ ok second_log
unfolding resolve_write_index alias_targets lookup
second_chosen = refl

resolve_write_index-Reason_example :
    (second_log.state_closed ≡ false) × Reason logs "logs" second_log
resolve_write_index-Reason_example = resolve_write_index-Reason logs "logs" second_log second_chosen

resolve_write_index-marked_example : resolve_write_index logs "logs" ≡ ok second_log
resolve_write_index-marked_example =
    resolve_write_index-marked logs "logs" second_log no_such_index (inl refl) second-Designated
      only_second refl
