-- ===== src/NinjaFs/Build.antt =====
-- When ninja runs, and what a target's reads return.
