-- ===== src/Offences/Tests.antt =====
-- Runs of the pallet, and the theorems at them.
use bifrost_node.Prelude.{ℕ, ◌-◌, ◌*◌, ◌/◌, ◌≡◌, refl, true, none, [], ◌∷◌, get, arith, update}
use bifrost_node.Staking.Types.{TierType}
use bifrost_node.Offences.{
  Offence, Config, Storage, one_perbill, new_info, handle_offence, try_slash, refresh_offences,
}
use bifrost_node.Offences.Counting.{handle_all, AreTolerated, reported, handle_offence-slashes}
use bifrost_node.Offences.Expiry.{refresh_offences-expires}

abbrev config : Config (ℕ → ℕ)
config = record {
  slash_reserved = λ who amount l. update l who (l who - amount);
  part_of = λ fraction amount. fraction * amount / one_perbill;
}

abbrev offence : ℕ → ℕ → Offence
offence session fraction = record {
  round_index = 1;
  session_index = session;
  self_bond = 1000;
  total_slash = 0;
  offender_slash = 0;
  nominators_slash = 0;
  slash_fraction = fraction;
}

abbrev storage : Storage (ℕ → ℕ)
storage = record {
  validator_offences = (5, new_info (offence 3 100_000_000)) ∷ [];
  offence_expiration_in_sessions = 4;
  full_maximum_offence_count = 2;
  basic_maximum_offence_count = 1;
  is_offence_active = true;
  is_slash_active = true;
  ledger = λ who. 5000;
  events = [];
}

-- The third offence of a full node, slashed by the two fractions before it.
third_offence :
    (handle_offence config 7 70 TierType.full (offence 6 900_000_000) (
      handle_all config 7 70 TierType.full
        (offence 4 100_000_000 ∷ offence 5 200_000_000 ∷ [])
        storage)).1
    ≡ 300
unfolding handle_offence try_slash
third_offence = refl

handle_offence-slashes_example :
    AreTolerated config 7 70 TierType.full
      (offence 4 100_000_000 ∷ offence 5 200_000_000 ∷ [])
      storage
    × (handle_offence config 7 70 TierType.full (offence 6 900_000_000) (
          handle_all config 7 70 TierType.full
            (offence 4 100_000_000 ∷ offence 5 200_000_000 ∷ [])
            storage)
        ≡ reported config 7 70 TierType.full 300 storage)
handle_offence-slashes_example =
    handle_offence-slashes config 7 70 TierType.full (offence 4 100_000_000)
      (offence 5 200_000_000 ∷ []) (offence 6 900_000_000) storage refl
      (omega arith, (omega arith, tt)) (omega arith) (omega arith)

refresh_offences-expires_example : get 5 (refresh_offences 8 storage).validator_offences ≡ none
refresh_offences-expires_example =
    refresh_offences-expires 8 5 storage (new_info (offence 3 100_000_000)) (omega arith)
      (refl, omega arith, tt) refl
