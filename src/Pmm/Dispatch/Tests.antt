-- ===== src/Pmm/Dispatch/Tests.antt =====
-- The dispatch layer over the buddy zone of the tests of its initialisation.
