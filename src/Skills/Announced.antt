-- ===== src/Skills/Announced.antt =====
-- The chunks of an artifact: the number that SKILL_DISPATCH_BEGIN announces against those that
-- follow, in `DispatchToDevice` of gateway/internal/skillvault/dispatch.go.
