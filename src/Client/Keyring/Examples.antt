-- ===== src/Client/Keyring/Examples.antt =====
-- The theorems on keyrings at concrete inputs.
