-- ===== src/Core/ChainDomain.antt =====
-- core/src/chain_domain.rs: the labels of the clusters, padded with zeros to 32 bytes.
use solana_hybrid_pq_account.Base.{[], ◌∷◌, ◌++◌, Bytes}
use solana_hybrid_pq_account.Base.Layout.{zeros}

-- "dualkey:"
abbrev label : Bytes
label = b'd' ∷ b'u' ∷ b'a' ∷ b'l' ∷ b'k' ∷ b'e' ∷ b'y' ∷ b':' ∷ []

unfoldable pub chain_domain_mainnet : Bytes
unfolding zeros
chain_domain_mainnet = label ++ (b'm' ∷ b'a' ∷ b'i' ∷ b'n' ∷ b'n' ∷ b'e' ∷ b't' ∷ []) ++ zeros 17

unfoldable pub chain_domain_devnet : Bytes
unfolding zeros
chain_domain_devnet = label ++ (b'd' ∷ b'e' ∷ b'v' ∷ b'n' ∷ b'e' ∷ b't' ∷ []) ++ zeros 18

unfoldable pub chain_domain_localnet : Bytes
unfolding zeros
chain_domain_localnet =
    label ++ (b'l' ∷ b'o' ∷ b'c' ∷ b'a' ∷ b'l' ∷ b'n' ∷ b'e' ∷ b't' ∷ []) ++ zeros 16
