-- ===== src/Program/Pda.antt =====
-- program/src/pda.rs: the address of a hybrid account and the seeds that sign for it.
use solana_hybrid_pq_account.Base.{ℕ, List, [], ◌∷◌, Bytes, ◌==ᵇ◌}
use solana_hybrid_pq_account.Base.Words.{to_le_bytes}
use solana_hybrid_pq_account.Core.Error.{Result, ok, ◌>>=◌, ◌>>◌, require, ok_or, invalid_pda}
use solana_hybrid_pq_account.Core.Account.{pda_seed, pda_seeds}
use solana_hybrid_pq_account.Program.Runtime.{Runtime}

module _ (rt : Runtime) where
  unfoldable pub derive : Bytes → Bytes → ℕ → Result (Bytes × ℕ)
  derive program_id creator account_index =
      ok_or (rt.find_program_address (pda_seeds creator (to_le_bytes 4 account_index)) program_id)
        invalid_pda

  unfoldable pub verify : Bytes → Bytes → ℕ → Bytes → Result ℕ
  unfolding derive
  verify program_id creator account_index expected = do
    found ← derive program_id creator account_index
    require (found.0 ==ᵇ expected) invalid_pda
    ok found.1

-- `SignerSeeds::new(..).as_slices()`
unfoldable pub signer_seeds : Bytes → ℕ → ℕ → List Bytes
signer_seeds creator account_index bump =
    pda_seed ∷ creator ∷ to_le_bytes 4 account_index ∷ (bump ∷ []) ∷ []
