-- ===== src/Smtp.antt =====
-- internal/imposter/smtp_server.go: the SMTP imposter.
pub mod Session
pub mod Addresses
pub mod Email
