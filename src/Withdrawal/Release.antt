-- ===== src/Withdrawal/Release.antt =====
-- What a move that ends a request without a payment does to the balances of its account.
