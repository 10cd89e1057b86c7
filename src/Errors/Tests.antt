-- ===== src/Errors/Tests.antt =====
-- The theorems on errors at concrete errors.
use mamori.Prelude.{List, [], ◌∷◌, codes}
use mamori.Errors.Laws.{Layer, by_provider, stale}

-- A refusal of Vault, served stale.
abbrev layers : List Layer
layers = stale (codes "vault:a") ∷ by_provider (codes "vault") (codes "vault:a") ∷ []
