-- ===== src/Api.antt =====
-- fastapi/app.py, fastapi/readiness.py and fastapi/deployment.py: the parts of the API service that
-- keep a state of their own.
pub mod Commands
pub mod Deployment
pub mod Onboarding
pub mod Readiness
