-- ===== src/Tests.antt =====
-- The theorems at concrete inputs, and runs of the definitions.
mod Tables
mod Urls
mod Requests
mod Proxy
mod Lists
mod Files
mod Terminal
mod Shared
mod Mailing
mod Client
mod Timed
mod Senders
mod Environment
mod Statuses
