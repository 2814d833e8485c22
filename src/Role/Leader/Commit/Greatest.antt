-- ===== src/Role/Leader/Commit/Greatest.antt =====
-- The median match index of zeroraft/src/role/role_leader.rs, as the greatest index that enough peers
-- have reached.
