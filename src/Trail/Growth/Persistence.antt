-- ===== src/Trail/Growth/Persistence.antt =====
-- The cases along a history of the requests of Api (backend/app/api/v1, without the demo seeding).
